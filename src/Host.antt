-- ===== src/Host.antt =====
-- Everything outside the repository (kernel, runc, bbolt, file system) answers through an `Env`,
-- which sees the calls made so far. A Go function is an action over a state and that log of calls:
-- it returns a value, returns an error, or panics. What was written before an error stays written.
pub mod Quiet
pub mod Ran
pub mod Keeps
pub mod Ledger
pub mod Stuck
pub mod Logged
mod Calls
mod Values
pub use Calls.*
pub use Values.*
use embedshim.Prelude.{◌⊎◌, inl, inr, ℕ, String, Bool, Option, none, some, List, ◌∷◌, ℤ}
use embedshim.RuncExt.Types.{ProcSync}
use embedshim.GoError.{Err, Sentinel}

pub record Env : Type 0 where
  pub reply : Log → Call → Reply
  -- two more numbers of what a call returns
  pub more : Log → Call → ℕ × ℕ
  -- the entries that json.Decoder reads from the runc log
  pub log_entries : Log → List Decoded
  -- time.Now()
  pub clock : Log → ℕ
  -- Error() of the sentinels
  pub names : Sentinel → String
  -- what the decoder of the sync pipe reads, up to the end of the stream
  pub messages : Log → List (Err ⊎ ProcSync)
  -- os.ReadDir of /proc/<pid>/fd, with os.Readlink of each entry
  pub proc_fds : Log → ℕ → List FdInfo
  -- containerd's stdio.Stdio.IsNull
  pub is_null : Stdio → Bool
  -- net/url: Parse and Scheme
  pub url_scheme : String → Err ⊎ String
  -- golang.org/x/sys/unix: WaitStatus(w).ExitStatus()
  pub exit_status : ℕ → ℤ
  -- the bytes that os.ReadFile returns, the entries of ioutil.ReadDir, the target of os.Readlink
  pub file_bytes : Log → List String → List ℕ
  pub dir_entries : Log → List String → List FileInfo
  pub link_target : Log → List String → List String
  -- (*options.Options).Marshal and Unmarshal, json.Marshal and Unmarshal of a runtime.IO
  pub marshal_options : Options → Err ⊎ List ℕ
  pub unmarshal_options : List ℕ → Err ⊎ Options
  pub marshal_stdio : Stdio → Err ⊎ List ℕ
  pub unmarshal_stdio : List ℕ → Err ⊎ Stdio
  -- filepath.Abs, os.Environ
  pub abs : String → Err ⊎ String
  pub environ : List String
  -- the path of the console socket that is made next
  pub socket_path : Log → String
  -- typeurl.UnmarshalAny; `none` is a value that is no *options.Options
  pub unmarshal_any : Any → Err ⊎ Option Options

pub data Outcome (S A : Type 0) : Type 0 where
  ok : A → S → Log → Outcome S A
  err : Err → S → Log → Outcome S A
  panic : String → Outcome S A

abbrev pub M : Type 0 → Type 0 → Type 0
M S A = S → Log → Outcome S A

module _ {S A : Type 0} where
  abbrev pub pure : A → M S A
  pure a s l = ok a s l

  -- return err
  abbrev pub fail : Err → M S A
  fail e s l = err e s l

  abbrev pub crash : String → M S A
  crash m s l = panic m

  abbrev pub gets : (S → A) → M S A
  gets f s l = ok (f s) s l

  -- `defer` on a failed return: `undo` runs, its own error is dropped, and the error goes on
  abbrev pub dropping : Outcome S (Unit {0}) → Err → Outcome S A
  dropping (ok _ s l) e = err e s l
  dropping (err _ s l) e = err e s l
  dropping (panic m) e = panic m

  abbrev pub rolled_back : Outcome S A → (Err → M S (Unit {0})) → Outcome S A
  rolled_back (ok a s l) undo = ok a s l
  rolled_back (err e s l) undo = dropping (undo e s l) e
  rolled_back (panic m) undo = panic m

  abbrev pub on_error : (Err → M S (Unit {0})) → M S A → M S A
  on_error undo m s l = rolled_back (m s l) undo

  -- the error as a value, as in `err := f()`
  abbrev pub caught : Outcome S A → Outcome S (Option Err)
  caught (ok _ s l) = ok none s l
  caught (err e s l) = ok (some e) s l
  caught (panic m) = panic m

  abbrev pub attempt : M S A → M S (Option Err)
  attempt m s l = caught (m s l)

  -- a call whose error the code does not look at
  abbrev pub forgotten : Outcome S A → Outcome S (Unit {0})
  forgotten (ok _ s l) = ok tt s l
  forgotten (err e s l) = ok tt s l
  forgotten (panic m) = panic m

  abbrev pub ignore : M S A → M S (Unit {0})
  ignore m s l = forgotten (m s l)

  -- both results of a call, for code that looks at them itself
  abbrev pub tried_outcome : Outcome S A → Outcome S (Err ⊎ A)
  tried_outcome (ok a s l) = ok (inr a) s l
  tried_outcome (err e s l) = ok (inl e) s l
  tried_outcome (panic m) = panic m

  abbrev pub tried : M S A → M S (Err ⊎ A)
  tried m s l = tried_outcome (m s l)

  abbrev pub return_both : Err ⊎ A → M S A
  return_both (inl e) s l = err e s l
  return_both (inr a) s l = ok a s l

  -- `defer last()`: it runs after `m` whatever `m` returned
  abbrev pub after : Outcome S (Unit {0}) → Err ⊎ A → Outcome S A
  after (ok _ s l) r = return_both r s l
  after (err e s l) r = return_both r s l
  after (panic m) r = panic m

  abbrev pub finish_with : Outcome S (Err ⊎ A) → M S (Unit {0}) → Outcome S A
  finish_with (ok r s l) last = after (last s l) r
  finish_with (err e s l) last = err e s l
  finish_with (panic m) last = panic m

  abbrev pub finally : M S (Unit {0}) → M S A → M S A
  finally last m s l = finish_with (tried m s l) last

  -- `if err != nil { return fmt.Errorf("…: %w", err) }`
  abbrev pub renamed : (Err → Err) → Outcome S A → Outcome S A
  renamed f (ok a s l) = ok a s l
  renamed f (err e s l) = err (f e) s l
  renamed f (panic m) = panic m

  abbrev pub wrapping : (Err → Err) → M S A → M S A
  wrapping f m s l = renamed f (m s l)

module _ {S A B : Type 0} where
  abbrev pub continue : Outcome S A → (A → M S B) → Outcome S B
  continue (ok a s l) f = f a s l
  continue (err e s l) f = err e s l
  continue (panic m) f = panic m

  infixl 5 ◌>>=◌ ◌>>◌
  abbrev pub ◌>>=◌ : M S A → (A → M S B) → M S B
  ◌>>=◌ m f s l = continue (m s l) f

  abbrev pub ◌>>◌ : M S A → M S B → M S B
  ◌>>◌ m n s l = continue (m s l) (λ _. n)

abbrev pub modify : {S : Type 0} → (S → S) → M S (Unit {0})
modify f s l = ok tt (f s) l

abbrev pub skip : {S : Type 0} → M S (Unit {0})
skip s l = ok tt s l

-- an error value that is returned: nil is no error
abbrev pub give : {S : Type 0} → Option Err → M S (Unit {0})
give none s l = ok tt s l
give (some e) s l = err e s l

-- One outside call: it is logged, and its reply depends on all that was called before.
abbrev pub answer : {S : Type 0} → Call → Reply → S → Log → Outcome S (ℕ × ℕ)
answer c (fails e) s l = err e s (record { call = c; reply = fails e } ∷ l)
answer c (gives n m) s l = ok (n, m) s (record { call = c; reply = gives n m } ∷ l)

abbrev pub call_pair : {S : Type 0} → Env → Call → M S (ℕ × ℕ)
call_pair env c s l = answer c (env.reply l c) s l

abbrev pub call : {S : Type 0} → Env → Call → M S ℕ
call env c = call_pair env c >>= λ r. pure r.0

-- what the call that is made next returns beside its reply
abbrev pub rest : {S : Type 0} → Env → Call → M S (ℕ × ℕ)
rest env c s l = ok (env.more l c) s l

-- time.Now()
abbrev pub time : {S : Type 0} → Env → M S ℕ
time env s l = ok (env.clock l) s l

-- A part of the state: an action on it is an action on the whole.
module _ {S T A : Type 0} where
  abbrev pub put_back : (T → S) → Outcome T A → Outcome S A
  put_back f (ok a t l) = ok a (f t) l
  put_back f (err e t l) = err e (f t) l
  put_back f (panic m) = panic m

  abbrev pub zoom : (S → T) → (S → T → S) → M T A → M S A
  zoom get set m s l = put_back (set s) (m (get s) l)
