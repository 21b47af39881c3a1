-- ===== src/ChunkStream.antt =====
-- internal/engine/chunkstream/reader.go: `New`, which chooses between the sequential and the parallel
-- reader of an object, and what both ask of it. Sizes and positions are int64.
pub mod Sequential
pub mod Parallel
use varc.Base.{
  ℕ, Bool, true, false, ◌&&◌, ◌||◌, Option, List, not, ◌==◌, if◌then◌else◌, lt64, le64, minus_one,
}
use varc.ObjectIo.{Span, ReadError}

-- `objectio.Object` and its streams, in a world of their own. One stream is current; `open_span` opens
-- one beside it, which `adopt` makes the current one. `range_seek` is `RangeSeek` of the current
-- stream, if it has that, and whether it moved to the offset.
pub record Source (S : Type 0) : Type 0 where
  pub size : ℕ
  pub open_span : S → Option Span → S × Option ReadError
  pub read : S → ℕ → S × List ℕ × Option ReadError
  pub close : S → S × Option ReadError
  pub adopt : S → S
  pub range_seek : S → ℕ → ℕ → S × Bool

pub data Choice : Type 0 where
  sequentially : ℕ → ℕ → Choice
  parallelly : ℕ → ℕ → Choice

-- `New`, for an object of the given size: the initial and the greatest chunk size, or the chunk size
-- and the number of streams.
unfoldable pub choose : ℕ → ℕ → ℕ → ℕ → Choice
choose size initial max_chunk streams =
    let chunk = if le64 initial 0 then minus_one else initial in
    let greatest =
      if not (max_chunk == minus_one) && lt64 max_chunk chunk then chunk else max_chunk in
    let many = if lt64 streams 0 then 0 else streams in
    if le64 many 1 || lt64 size 0 then sequentially chunk greatest else parallelly chunk many
