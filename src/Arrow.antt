-- ===== src/Arrow.antt =====
-- src/arrow_stream.rs: how a collected result leaves the binding.
use imbh_c.Common.{ℕ, Text, List, [], ◌∷◌, head?, unwrap_or}
use mathlib.Core.Option
use imbh_c.Engine.{Engine}
use imbh_c.Memory.{Action, compute, ◌>>=◌, pure}

module _ ⦃eng : Engine⦄ where
  unfoldable pub export_batches : eng.Schema → List eng.RecordBatch → eng.Stream
  export_batches schema batches = eng.stream_new schema batches

  unfoldable pub export_batches_infer : List eng.RecordBatch → eng.Stream
  unfolding export_batches
  export_batches_infer batches =
      export_batches (unwrap_or eng.schema_empty (Option.map eng.batch_schema (head? batches)))
        batches

  -- `for batch in &batches { writer.write(batch)?; }`
  unfoldable pub write_all : List eng.RecordBatch → eng.Writer → Action Text eng.Writer
  unfolding ◌>>=◌
  write_all [] writer = pure writer
  write_all (batch ∷ batches) writer =
      compute (λ e. e) (eng.writer_write batch writer) >>= λ writer'. write_all batches writer'

  unfoldable pub encode_ipc : eng.Schema → List eng.RecordBatch → Action Text (List ℕ)
  unfolding write_all
  encode_ipc schema batches = do
    writer ← compute (λ e. e) (eng.writer_try_new schema)
    writer' ← write_all batches writer
    compute (λ e. e) (eng.writer_finish writer')
