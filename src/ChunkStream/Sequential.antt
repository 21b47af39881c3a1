-- ===== src/ChunkStream/Sequential.antt =====
-- internal/engine/chunkstream/sequential.go: the reader that opens a chunk of the object after the other.
-- The loops have a bound on their rounds; `none` is that they have not ended by then.
pub mod Live
pub mod Prepare
pub mod Full
pub mod Reads
pub mod Seeks
mod Tests
use varc.Base.{
  ℕ, zero, suc, ◌+◌, ◌-◌, Bool, true, false, not, ◌&&◌, ◌||◌, Option, none, some, List, [], ◌∷◌,
  ◌++◌, length, ltb, ◌==◌, if◌then◌else◌, add64, sub64, lt64, le64, minus_one,
}
use varc.ObjectIo.{Span, ReadError, eof}
use varc.PageBuffer.{Whence, from_start, from_current, from_end, from_elsewhere}
use varc.ChunkStream.{Source}

-- `sequential`; `opened` is whether there is a stream. An offset of -1 is that none is open at the
-- chunk's begin.
pub record Sequential : Type 0 where
  pub opened : Bool
  pub offset : ℕ
  pub chunk_offset : ℕ
  pub chunk_size : ℕ
  pub initial_chunk_size : ℕ
  pub max_chunk_size : ℕ
  pub custom_chunk_size : Bool
  pub closed : Bool

pub data ChunkError : Type 0 where
  file_closed invalid_seek : ChunkError
  -- An error of the object or of a stream; EOF is one.
  source_error : ReadError → ChunkError

unfoldable pub new_sequential : ℕ → ℕ → Sequential
new_sequential initial max_chunk = record {
  opened = false;
  offset = minus_one;
  chunk_offset = 0;
  chunk_size = initial;
  initial_chunk_size = initial;
  max_chunk_size = max_chunk;
  custom_chunk_size = false;
  closed = false;
}

-- A full chunk was read: the next one begins, and is twice as large up to the limit.
unfoldable pub doubled : ℕ → ℕ → ℕ
doubled size limit =
    let twice = add64 size size in
    if lt64 limit twice && not (limit == minus_one) then limit else twice

unfoldable pub next_chunk : Sequential → Sequential
unfolding doubled
next_chunk c =
    let size =
      if c.custom_chunk_size then c.initial_chunk_size else doubled c.chunk_size c.max_chunk_size in
    record c { chunk_offset = c.offset; custom_chunk_size = false; chunk_size = size }

-- The span that `openRange` opens.
unfoldable pub chunk_span : ℕ → ℕ → Option Span
chunk_span offset length =
    if le64 length 0
    then (if offset == 0 then none else some (record { start = offset; stop = minus_one }))
    else some (record { start = offset; stop = sub64 (add64 offset length) 1 })

-- What the place of `RangeSeek` is counted from, for an object of the given size.
unfoldable pub seek_base : Sequential → ℕ → Whence → Option ℕ
seek_base c size from_start = some 0
seek_base c size from_end = if lt64 size 0 then none else some size
seek_base c size from_current = some c.offset
seek_base c size from_elsewhere = some c.offset

-- `RangeSeek` from there on: the chunk that begins at `place`.
unfoldable pub sought_chunk : Sequential → ℕ → ℕ → ℕ → Sequential × ℕ × Option ChunkError
sought_chunk c size length place =
    let custom = lt64 0 length in
    let chunk = if custom then length else c.initial_chunk_size in
    let c' = record c {
      offset = minus_one;
      chunk_size = chunk;
      custom_chunk_size = if custom then true else c.custom_chunk_size;
    } in
    if lt64 place 0 || le64 size place
    then (record c' { chunk_offset = 0 }, 0, some invalid_seek)
    else (record c' { chunk_offset = place }, place, none)

unfoldable pub sought_from : Sequential → ℕ → ℕ → ℕ → Option ℕ → Sequential × ℕ × Option ChunkError
unfolding sought_chunk
sought_from c size offset length none = (c, 0, some invalid_seek)
sought_from c size offset length (some base) = sought_chunk c size length (add64 base offset)

-- `RangeSeek`
unfoldable pub range_seek : Sequential → ℕ → ℕ → Whence → ℕ → Sequential × ℕ × Option ChunkError
unfolding sought_from seek_base
range_seek c size offset whence length =
    if c.closed
    then (c, 0, some file_closed)
    else sought_from c size offset length (seek_base c size whence)

-- `Seek`
unfoldable pub seek : Sequential → ℕ → ℕ → Whence → Sequential × ℕ × Option ChunkError
unfolding range_seek
seek c size offset whence = range_seek c size offset whence minus_one

-- `io.ReadFull`: the bytes and its error; without one the buffer is full.
pub record Filled (S : Type 0) : Type 0 where
  pub world : S
  pub bytes : List ℕ
  pub err : Option ReadError

-- `Read`
pub record SequentialRead (S : Type 0) : Type 0 where
  pub reader : Sequential
  pub world : S
  pub bytes : List ℕ
  pub err : Option ChunkError

-- The two cases of the switch in `Read`: whether the chunk is at its end, and whether a stream is to
-- be opened.
unfoldable pub at_chunk_end : Sequential → Bool
at_chunk_end c = lt64 0 c.chunk_size && (c.offset == add64 c.chunk_offset c.chunk_size)

-- How many of `len` bytes the chunk has.
unfoldable pub chunk_part : Sequential → ℕ → ℕ
chunk_part c len =
    let rest = sub64 (add64 c.chunk_offset c.chunk_size) c.offset in
    if lt64 rest len && lt64 0 c.chunk_size then rest else len

unfoldable pub moved : Sequential → ℕ → Sequential
moved c n = record c { offset = add64 c.offset n }

module _ {S : Type 0} (o : Source S) where
  -- `resetReader`: the old stream stays if it cannot be closed.
  unfoldable pub replaced :
      Sequential → ℕ → S × Option ReadError → Sequential × S × Option ChunkError
  replaced c offset (s, some e) = (c, s, some (source_error e))
  replaced c offset (s, none) = (record c { opened = true; offset = offset }, o.adopt s, none)

  unfoldable pub reset_reader : Sequential → ℕ → S → Sequential × S × Option ChunkError
  unfolding replaced
  reset_reader c offset s = replaced c offset (if c.opened then o.close s else (s, none))

  unfoldable pub opened_range :
      Sequential → S × Option ReadError → Sequential × S × Option ChunkError
  unfolding reset_reader
  opened_range c (s, some e) = (c, s, some (source_error e))
  opened_range c (s, none) = reset_reader c c.chunk_offset s

  -- `openRange`, by the stream's answer to RangeSeek.
  unfoldable pub sought_range : Sequential → S × Bool → Sequential × S × Option ChunkError
  unfolding opened_range
  sought_range c (s, true) = (record c { offset = c.chunk_offset }, s, none)
  sought_range c (s, false) =
      opened_range c (o.open_span s (chunk_span c.chunk_offset c.chunk_size))

  unfoldable pub open_range : Sequential → S → Sequential × S × Option ChunkError
  unfolding sought_range
  open_range c s =
      if c.closed
      then (c, s, some file_closed)
      else sought_range c
          (if c.opened then o.range_seek s c.chunk_offset c.chunk_size else (s, false))

  unfoldable pub add_front : List ℕ → Option (Filled S) → Option (Filled S)
  add_front bytes none = none
  add_front bytes (some r) = some (record r { bytes = bytes ++ r.bytes })

  unfoldable pub filled_by :
      ℕ → S × List ℕ × Option ReadError → Option (Filled S) → Option (Filled S)
  unfolding add_front
  filled_by len (s, bytes, none) rest = add_front bytes rest
  filled_by len (s, bytes, some e) rest =
      some (record { world = s; bytes = bytes; err = if length bytes == len then none else some e })

  -- The loop of `io.ReadFull` of `len` bytes. An EOF after some bytes is `ErrUnexpectedEOF`, which `Read` makes EOF again.
  unfoldable pub read_full : ℕ → S → ℕ → Option (Filled S)
  unfolding filled_by
  read_full zero s len =
      if len == 0 then some (record { world = s; bytes = []; err = none }) else none
  read_full (suc k) s len =
      let answer = o.read s len in
      let rest = read_full k answer.0 (len - length answer.1) in
      if len == 0
      then some (record { world = s; bytes = []; err = none })
      else filled_by len answer rest

  -- The switch.
  unfoldable pub prepare : Sequential → S → Sequential × S × Option ChunkError
  unfolding at_chunk_end
  prepare c s =
      if at_chunk_end c
      then open_range (next_chunk c) s
      else (if c.offset == minus_one then open_range c s else (c, s, none))

  unfoldable pub with_front : List ℕ → Option (SequentialRead S) → Option (SequentialRead S)
  with_front bytes none = none
  with_front bytes (some r) = some (record r { bytes = bytes ++ r.bytes })

  -- What `Read` does after a part, by its error; `more` are the rounds for the other bytes.
  unfoldable pub after_part :
      Sequential
      → Filled S
      → Option (SequentialRead S)
      → Option ReadError
      → Option (SequentialRead S)
  unfolding with_front moved
  after_part c r more none = with_front r.bytes more
  after_part c r more (some e) = some (record {
    reader = moved c (length r.bytes);
    world = r.world;
    bytes = r.bytes;
    err = some (source_error e);
  })

  unfoldable pub read_part :
      (Sequential → S → Option (SequentialRead S))
      → Sequential
      → Option (Filled S)
      → Option (SequentialRead S)
  unfolding after_part
  read_part more c none = none
  read_part more c (some r) = after_part c r (more (moved c (length r.bytes)) r.world) r.err

  unfoldable pub read_prepared :
      (Sequential → S → Option (SequentialRead S))
      → ℕ
      → Sequential × S × Option ChunkError
      → Option (SequentialRead S)
  unfolding read_part
  read_prepared more len (c, s, some e) =
      some (record { reader = c; world = s; bytes = []; err = some e })
  read_prepared more len (c, s, none) =
      read_part more c (read_full (chunk_part c len) s (chunk_part c len))

  -- The loop of `Read` for `len` bytes.
  unfoldable pub read_loop : ℕ → Sequential → S → ℕ → Option (SequentialRead S)
  read_loop zero c s len =
      if len == 0 then some (record { reader = c; world = s; bytes = []; err = none }) else none
  read_loop (suc k) c s len =
      let ready = prepare c s in
      let more : Sequential → S → Option (SequentialRead S) =
        λ (c' : Sequential) (s' : S). read_loop k c' s' (len - chunk_part ready.0 len) in
      let round = read_prepared more len ready in
      if len == 0 then some (record { reader = c; world = s; bytes = []; err = none }) else round

  -- `Read`
  unfoldable pub read : Sequential → S → ℕ → Option (SequentialRead S)
  read c s len =
      if c.closed
      then some (record { reader = c; world = s; bytes = []; err = some file_closed })
      else read_loop len c s len

  -- `Open`: whether there is an error.
  unfoldable pub open_reader : Sequential → S → Sequential × S × Option ChunkError
  unfolding open_range
  open_reader c s = if c.opened && not (c.offset == minus_one) then (c, s, none) else open_range c s

  -- `Close`: the stream is given up if it can be closed.
  unfoldable pub given_up : Sequential → S × Option ReadError → Sequential × S × Option ChunkError
  given_up c (s, some e) = (c, s, some (source_error e))
  given_up c (s, none) = (record c { opened = false; offset = 0 }, s, none)

  unfoldable pub close : Sequential → S → Sequential × S × Option ChunkError
  unfolding given_up
  close c s =
      if c.closed
      then (c, s, some file_closed)
      else given_up (record c { closed = true }) (if c.opened then o.close s else (s, none))
