-- ===== src/IdAllocator.antt =====
-- id_allocator.go: trace IDs from a persistent sequence. db.Update runs the function in a transaction
-- and commits it if it returns nil.
use embedshim.Prelude.{ℕ, List, ◌∷◌, String}
use embedshim.GoError.{wrap}
use embedshim.Host.{
  Env, M, call, pure, wrapping, ◌>>=◌, ◌>>◌, bolt_begin, bolt_commit, create_bucket, next_sequence,
  bolt_open, bolt_close, skip,
}

unfoldable pub next_id : {S : Type 0} → Env → M S ℕ
next_id env = do
  call env bolt_begin
  wrapping (wrap "failed to create version bucket") (call env create_bucket)
  id ← wrapping (wrap "failed to get next ID") (call env next_sequence)
  call env bolt_commit
  pure id

unfoldable pub new_id_allocator : {S : Type 0} → Env → List String → String → M S (Unit {0})
new_id_allocator env store_dir db_name = do
  wrapping (wrap "failed to open db") (call env (bolt_open (db_name ∷ store_dir)))
  skip

unfoldable pub close : {S : Type 0} → Env → M S (Unit {0})
close env = do call env bolt_close; skip
