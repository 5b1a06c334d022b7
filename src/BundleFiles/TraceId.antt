-- ===== src/BundleFiles/TraceId.antt =====
-- The trace ID of an init process across a restart of the plugin.
use embedshim.Prelude.{
  ℕ, ◌+◌, ◌*◌, ◌/◌, ◌%◌, ◌<◌, ◌^◌, ◌≡◌, ◌∙◌, inl, inr, String, Option, none, some, List, [], ◌∷◌,
  arith, same_path, same_path_refl, if◌then◌else◌,
}
use embedshim.Host.{
  Env, Outcome, ok, err, panic, Log, Call, Reply, fails, gives, Reply-cases, write_file, read_file,
  rename, remove_all, remove_path,
}
use embedshim.Bundle.{Bundle}
use embedshim.BundleFiles.{
  put_uint64, uint64, read_bytes, store, read_init_trace_event_id, apply_init_trace_event_id,
  trace_event_id_file,
}

digits :
    (v : ℕ)
    → v < 2 ^ 64
    → v % 256
        + v / 2 ^ 8 % 256 * 2 ^ 8
        + v / 2 ^ 16 % 256 * 2 ^ 16
        + v / 2 ^ 24 % 256 * 2 ^ 24
        + v / 2 ^ 32 % 256 * 2 ^ 32
        + v / 2 ^ 40 % 256 * 2 ^ 40
        + v / 2 ^ 48 % 256 * 2 ^ 48
        + v / 2 ^ 56 % 256 * 2 ^ 56
      ≡ v
digits v h = omega arith

abbrev settled : Reply → List ℕ → Option (List ℕ)
settled (fails e) bytes = none
settled (gives n m) bytes = some bytes

-- what one call leaves of the bytes that are known to stand in a file
abbrev overwritten : List String → Call → Reply → Option (List ℕ) → Option (List ℕ)
overwritten p (write_file q bytes) r earlier = if same_path q p then settled r bytes else earlier
overwritten p (rename q to) r earlier = none
overwritten p (remove_all q) r earlier = none
overwritten p (remove_path q) r earlier = none
overwritten p _ r earlier = earlier

-- The bytes that a path holds as far as the log tells: those of the last successful WriteFile, if no
-- later call may have touched them.
abbrev pub written : List String → Log → Option (List ℕ)
written p [] = none
written p (e ∷ l) = overwritten p e.call e.reply (written p l)

-- What the file system promises: a successful ReadFile gives the bytes that were written last.
pub record ReadsBack (env : Env) : Type 0 where
  pub reads_back :
      (l : Log) (path : List String) (bytes : List ℕ) (n m : ℕ)
      → written path l ≡ some bytes
      → env.reply l (read_file path) ≡ gives n m
      → env.file_bytes l path ≡ bytes

-- a run that returns this number, or the error of the read
abbrev pub Recovers : {S : Type 0} → ℕ → Outcome S ℕ → Type 0
Recovers id (ok v s l) = v ≡ id
Recovers id (err e s l) = Unit
Recovers id (panic m) = ⊥

module _ (env : Env) {S : Type 0} where
  stored :
      (path : List String) (bytes : List ℕ) (s t : S) (l m : Log)
      → store env path bytes s l ≡ ok tt t m
      → written path m ≡ some bytes
  unfolding store
  stored path bytes s t l m e = ground (arith, same_path_refl path)

  read_written :
      (id : ℕ) (b : Bundle) (s : S) (l : Log)
      → ReadsBack env
      → id < 2 ^ 64
      → written (trace_event_id_file b) l ≡ some (put_uint64 id)
      → Recovers id (read_init_trace_event_id env b s l)
  unfolding read_init_trace_event_id read_bytes put_uint64 uint64
  read_written id b s l law h e =
      elim (Reply-cases (env.reply l (read_file (trace_event_id_file b)))) [
        | inl (x, r) ↦ rw r tt
        | inr (n, m, r) ↦
            rw r
              (rw (law.reads_back l (trace_event_id_file b) (put_uint64 id) n m e r) (digits id h))
      ]

  -- The trace ID of a bundle survives a restart: if a 64-bit ID has been stored and no later call has
  -- touched the file, then a read of it, at any later time, gives this ID or reports the error of the
  -- read; it does not panic.
  pub read_init_trace_event_id-apply_init_trace_event_id :
      (id : ℕ) (b : Bundle) (s t u : S) (l m later : Log)
      → ReadsBack env
      → id < 2 ^ 64
      → apply_init_trace_event_id env id b s l ≡ ok tt t m
      → written (trace_event_id_file b) later ≡ written (trace_event_id_file b) m
      → Recovers id (read_init_trace_event_id env b u later)
  unfolding apply_init_trace_event_id
  read_init_trace_event_id-apply_init_trace_event_id id b s t u l m later law h e untouched =
      read_written id b u later law h
        (untouched ∙ stored (trace_event_id_file b) (put_uint64 id) s t l m e)
