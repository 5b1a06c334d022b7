-- ===== src/Io/Creation.antt =====
-- The creation of a process's I/O touches descriptors only.
use embedshim.Prelude.{
  String, Bool, List, [], ◌∷◌, Option, none, some, ◌⊎◌, inl, inr, if◌then◌else◌,
}
use embedshim.GoError.{Err, wrap, is, os_exist}
use embedshim.Host.{Env, M, Stdio, skip, fail, attempt, call, stat_file, open_file}
use embedshim.Host.Quiet.{quiet_rules, Quiet-ignore}
use embedshim.Host.Keeps.{Keeps, keeps_rules, Keeps-then, Keeps-bind, Keeps-if, Keeps-Quiet}
use embedshim.Io.Frame.{close_closer-Quiet}
use embedshim.Io.{
  ProcessIo, Closer, close_closer, close_all, guarded, make_missing, open_rw_fifo, new_pipe,
  stdin_part, fifo_part, new_runc_pipe_io, by_scheme, create_io,
}

module _ (env : Env) {S V : Type 0} (f : S → V) (X : String → Type 0) where
  close_all-Keeps : (cs : List Closer) → Keeps f X (close_all env cs)
  unfolding close_all
  close_all-Keeps [] = search (keeps_rules, quiet_rules)
  close_all-Keeps (c ∷ cs) =
      Keeps-then f X _ (close_all env cs)
        (Keeps-Quiet f X _ (Quiet-ignore (close_closer env c) (close_closer-Quiet env c)))
        (close_all-Keeps cs)

  guarded-Keeps :
      {A : Type 0} (opened : List Closer) (m : M S A)
      → Keeps f X m
      → Keeps f X (guarded env opened m)
  unfolding guarded
  guarded-Keeps opened m k = search (keeps_rules, close_all-Keeps)

  made-Keeps :
      (o : Option Err)
      → Keeps {A = Unit {0}} f X (elim o [
        | none ↦ skip
        | some x ↦ if is x os_exist then skip else fail (wrap "error creating fifo" x)
      ])
  made-Keeps none = search (keeps_rules, quiet_rules)
  made-Keeps (some x) = search (keeps_rules, quiet_rules)

  make_missing-Keeps : (path : String) (e : Err) → Keeps f X (make_missing env path e)
  unfolding make_missing
  make_missing-Keeps path e = search (keeps_rules, quiet_rules, made-Keeps)

  found-Keeps :
      (path : String) (o : Option Err)
      → Keeps f X (elim o [ none ↦ skip | some e ↦ make_missing env path e ])
  found-Keeps path none = search (keeps_rules, quiet_rules)
  found-Keeps path (some e) = make_missing-Keeps path e

  open_rw_fifo-Keeps : (path : String) → Keeps f X (open_rw_fifo env path)
  unfolding open_rw_fifo
  open_rw_fifo-Keeps path =
      Keeps-bind f X (attempt (call env (stat_file path))) _ (search (keeps_rules, quiet_rules))
        (λ found.
          Keeps-then f X _ (call env (open_file path)) (found-Keeps path found)
            (search (keeps_rules, quiet_rules)))

  new_pipe-Keeps : Keeps f X (new_pipe env)
  unfolding new_pipe
  new_pipe-Keeps = search (keeps_rules, quiet_rules)

  stdin_part-Keeps : (wanted : Bool) → Keeps f X (stdin_part env wanted)
  unfolding stdin_part
  stdin_part-Keeps wanted = search (keeps_rules, quiet_rules, guarded-Keeps, new_pipe-Keeps) depth 9

  fifo_part-Keeps :
      (b : Bool) (failed path : String) (opened : List Closer)
      → Keeps f X (fifo_part env b failed path opened)
  unfolding fifo_part
  fifo_part-Keeps b failed path opened =
      search (keeps_rules, quiet_rules, guarded-Keeps, open_rw_fifo-Keeps) depth 9

  new_runc_pipe_io-Keeps : (stdio : Stdio) → Keeps f X (new_runc_pipe_io env stdio)
  unfolding new_runc_pipe_io
  new_runc_pipe_io-Keeps stdio =
      search (keeps_rules, quiet_rules, stdin_part-Keeps, fifo_part-Keeps) depth 9

  by_scheme-Keeps : (scheme : String) (stdio : Stdio) → Keeps f X (by_scheme env scheme stdio)
  unfolding by_scheme
  by_scheme-Keeps scheme stdio = search (keeps_rules, quiet_rules, new_runc_pipe_io-Keeps)

  parsed-Keeps :
      (stdio : Stdio) (u : Err ⊎ String)
      → Keeps {A = ProcessIo} f X (elim u [
        | inl e ↦ fail (wrap "unable to parse stdout uri" e)
        | inr scheme ↦ by_scheme env scheme stdio
      ])
  parsed-Keeps stdio (inl e) = search (keeps_rules, quiet_rules)
  parsed-Keeps stdio (inr s) = by_scheme-Keeps s stdio

  pub create_io-Keeps : (stdio : Stdio) → Keeps f X (create_io env stdio)
  unfolding create_io
  create_io-Keeps stdio =
      Keeps-if f X (env.is_null stdio) _ _ (search (keeps_rules, quiet_rules))
        (parsed-Keeps stdio (env.url_scheme stdio.stdout))
