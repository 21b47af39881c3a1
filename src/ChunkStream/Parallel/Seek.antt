-- ===== src/ChunkStream/Parallel/Seek.antt =====
-- internal/engine/chunkstream/parallel.go: `Seek`, which keeps the streams that reach the new position.
use varc.Base.{
  ℕ, ◌||◌, Option, none, some, List, [], ◌∷◌, ◌==◌, if◌then◌else◌, add64, sub64, lt64, le64,
}
use varc.PageBuffer.{Whence, from_start, from_current, from_end, from_elsewhere}
use varc.ChunkStream.Parallel.{
  ParallelStream, Parallel, Streams, ParallelError, parallel_closed, invalid_position, close_error,
  pop_all,
}

module _ {S : Type 0} (o : Streams S) where
  -- The streams that end before the new position are closed.
  unfoldable pub drop_before : ℕ → S → List ParallelStream → S × List ParallelStream
  drop_before place s [] = (s, [])
  drop_before place s (st ∷ rest) =
      let later = drop_before place (o.close s st).0 rest in
      if le64 (add64 st.offset st.size) place then later else (s, st ∷ rest)

  unfoldable pub seek_first :
      Parallel → S → List ParallelStream → Parallel × S × Option ParallelError
  unfolding close_error pop_all
  seek_first c s [] = (record c { end_stream = c.offset; streams = [] }, s, none)
  seek_first c s (st ∷ rest) =
      let none_left = pop_all o c s (st ∷ rest) in
      let place = sub64 c.offset st.offset in
      let answer = o.seek s st place in
      if lt64 c.offset st.offset
      then (record (none_left.0) { end_stream = c.offset }, none_left.1, none)
      else (
        record c { streams = record st { read_bytes = place } ∷ rest },
        answer.0,
        close_error answer.1,
      )

  unfoldable pub seek_base : Parallel → Whence → ℕ
  seek_base c from_start = 0
  seek_base c from_end = o.size
  seek_base c from_current = c.offset
  seek_base c from_elsewhere = c.offset

  -- `Seek`; the position that it returns is the reader's offset if there is no error.
  unfoldable pub seek_to : Parallel → S → ℕ → Parallel × S × Option ParallelError
  unfolding drop_before seek_first
  seek_to c s place =
      let kept = drop_before place s c.streams in
      if lt64 place 0 || le64 o.size place
      then (c, s, some invalid_position)
      else (if place == c.offset
          then (c, s, none)
          else seek_first (record c { offset = place }) kept.0 kept.1)

  unfoldable pub seek : Parallel → S → ℕ → Whence → Parallel × S × Option ParallelError
  unfolding seek_to seek_base
  seek c s offset whence =
      if c.closed
      then (c, s, some parallel_closed)
      else seek_to c s (add64 (seek_base c whence) offset)
