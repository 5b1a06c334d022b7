-- ===== src/BundleFiles.antt =====
-- bundle_utils.go: the files of a bundle that outlive the plugin. A byte slice is a list of numbers.
pub mod TraceId
use embedshim.Prelude.{ℕ, ◌+◌, ◌*◌, ◌/◌, ◌%◌, ◌^◌, String, List, [], ◌∷◌, ◌⊎◌, inl, inr}
use embedshim.GoError.{Err, wrap}
use embedshim.Bundle.{Bundle}
use embedshim.Host.{
  Env, M, Stdio, Options, Any, ok, call, pure, skip, crash, wrapping, return_both, ◌>>=◌, ◌>>◌,
  write_file, read_file, read_pid_file,
}

abbrev pub trace_event_id_file : Bundle → List String
trace_event_id_file b = "trace_event_id.binary" ∷ b.path

abbrev pub oci_spec_file : Bundle → List String
oci_spec_file b = "config.json" ∷ b.path

abbrev pub options_file : Bundle → List String
options_file b = "options.pb" ∷ b.path

abbrev pub stdio_file : Bundle → List String
stdio_file b = "stdio.json" ∷ b.path

-- binary.LittleEndian.PutUint64
unfoldable pub put_uint64 : ℕ → List ℕ
put_uint64 v =
    v % 256
    ∷ v / 2 ^ 8 % 256
    ∷ v / 2 ^ 16 % 256
    ∷ v / 2 ^ 24 % 256
    ∷ v / 2 ^ 32 % 256
    ∷ v / 2 ^ 40 % 256
    ∷ v / 2 ^ 48 % 256
    ∷ v / 2 ^ 56 % 256
    ∷ []

-- binary.LittleEndian.Uint64: it looks at eight bytes and panics if there are fewer
unfoldable pub uint64 : {S : Type 0} → List ℕ → M S ℕ
uint64 (b0 ∷ b1 ∷ b2 ∷ b3 ∷ b4 ∷ b5 ∷ b6 ∷ b7 ∷ rest) = pure (
    b0
    + b1 * 2 ^ 8
    + b2 * 2 ^ 16
    + b3 * 2 ^ 24
    + b4 * 2 ^ 32
    + b5 * 2 ^ 40
    + b6 * 2 ^ 48
    + b7 * 2 ^ 56)
uint64 _ = crash "index out of range"

module _ (env : Env) {S : Type 0} where
  -- os.ReadFile
  unfoldable pub read_bytes : List String → M S (List ℕ)
  read_bytes path = do
    bytes ← λ s l. ok (env.file_bytes l path) s l
    wrapping (wrap "failed to read") (call env (read_file path))
    pure bytes

  -- os.WriteFile
  unfoldable pub store : List String → List ℕ → M S (Unit {0})
  store path bytes = do wrapping (wrap "failed to store") (call env (write_file path bytes)); skip

  unfoldable pub read_init_trace_event_id : Bundle → M S ℕ
  unfolding read_bytes uint64
  read_init_trace_event_id b = do value ← read_bytes (trace_event_id_file b); uint64 value

  unfoldable pub apply_init_trace_event_id : ℕ → Bundle → M S (Unit {0})
  unfolding store put_uint64
  apply_init_trace_event_id id b = store (trace_event_id_file b) (put_uint64 id)

  unfoldable pub apply_init_oci_spec : Any → Bundle → M S (Unit {0})
  unfolding store
  apply_init_oci_spec spec b = store (oci_spec_file b) spec.value

  unfoldable pub read_init_options : Bundle → M S Options
  unfolding read_bytes
  read_init_options b = do
    value ← read_bytes (options_file b)
    wrapping (wrap "failed to unmarshal pb into options")
        (return_both (env.unmarshal_options value))

  unfoldable pub apply_init_options : Options → Bundle → M S (Unit {0})
  unfolding store
  apply_init_options opt b = do
    value ← wrapping (wrap "failed to marshal into pb") (return_both (env.marshal_options opt))
    store (options_file b) value

  unfoldable pub read_init_stdio : Bundle → M S Stdio
  unfolding read_bytes
  read_init_stdio b = do
    value ← read_bytes (stdio_file b)
    wrapping (wrap "failed to unmarshal json into stdio") (return_both (env.unmarshal_stdio value))

  unfoldable pub apply_init_stdio : Stdio → Bundle → M S (Unit {0})
  unfolding store
  apply_init_stdio stdio b = do
    value ← wrapping (wrap "failed to marshal into json") (return_both (env.marshal_stdio stdio))
    store (stdio_file b) value

  -- newInitPidFile and Read
  unfoldable pub read_init_pid : Bundle → M S ℕ
  read_init_pid b = call env read_pid_file
