-- ===== src/ChunkStream/Parallel.antt =====
-- internal/engine/chunkstream/parallel.go: the reader that keeps several streams of an object open, each
-- filled by a goroutine. The answers of a stream's buffer and of its goroutine are arguments without a law; offsets are int64.
pub mod Seek
pub mod Tiles
pub mod Seeks
mod Tests
use varc.Base.{
  ℕ, zero, suc, ◌+◌, ◌-◌, ◌*◌, ◌/◌, Bool, true, false, not, ◌||◌, Option, none, some, List, [], ◌∷◌,
  ◌++◌, length, ltb, leb, ◌==◌, if◌then◌else◌, add64, sub64, lt64, le64,
}
use varc.ObjectIo.{ReadError, eof}
use varc.PageBuffer.{Whence, from_start, from_current, from_end, from_elsewhere}

-- `stream`
pub record ParallelStream : Type 0 where
  pub offset : ℕ
  pub size : ℕ
  pub read_bytes : ℕ

-- `parallel`
pub record Parallel : Type 0 where
  pub end_stream : ℕ
  pub offset : ℕ
  pub chunk_size : ℕ
  pub nstreams : ℕ
  pub streams : List ParallelStream
  pub closed : Bool

-- The object and its streams: `newStream`, `Read` of a stream's buffer, `WaitWrite` until more was
-- written or the context ended with its error, `Seek` of the buffer once it is full enough, and `close`.
pub record Streams (S : Type 0) : Type 0 where
  pub size : ℕ
  pub start : S → ℕ → ℕ → S
  pub read : S → ParallelStream → ℕ → S × List ℕ × Option ReadError
  pub wait : S → ParallelStream → S × Option ReadError
  pub seek : S → ParallelStream → ℕ → S × Option ReadError
  pub close : S → ParallelStream → S × Option ReadError

pub data ParallelError : Type 0 where
  parallel_closed unknown_size invalid_position : ParallelError
  stream_failed : ReadError → ParallelError

-- `newParallel`: the chunk size in whole buffers.
abbrev pub chunk_unit : ℕ
chunk_unit = 1048576

unfoldable pub whole_buffers : ℕ → ℕ
whole_buffers chunk =
    let whole = chunk_unit * (chunk / chunk_unit) in
    if lt64 whole chunk then add64 whole chunk_unit else whole

unfoldable pub new_parallel : ℕ → ℕ → Parallel
new_parallel chunk streams = record {
  end_stream = 0;
  offset = 0;
  chunk_size = whole_buffers (if lt64 chunk 0 then chunk_unit else chunk);
  nstreams = streams;
  streams = [];
  closed = false;
}

-- `eof`
unfoldable pub is_read : ParallelStream → Bool
is_read st = le64 st.size st.read_bytes

unfoldable pub advanced : ParallelStream → ℕ → ParallelStream
advanced st n = record st { read_bytes = add64 st.read_bytes n }

-- What `Read` of a stream returns.
pub record StreamRead (S : Type 0) : Type 0 where
  pub world : S
  pub stream : ParallelStream
  pub bytes : List ℕ
  pub err : Option ReadError

unfoldable pub put_first : {S : Type 0} → List ℕ → Option (StreamRead S) → Option (StreamRead S)
put_first bytes none = none
put_first bytes (some r) = some (record r { bytes = bytes ++ r.bytes })

-- A read with an error other than EOF ends the loop.
unfoldable pub only_failed : Option ReadError → Option ReadError
only_failed none = none
only_failed (some eof) = none
only_failed (some e) = some e

unfoldable pub close_error : Option ReadError → Option ParallelError
close_error none = none
close_error (some e) = some (stream_failed e)

-- The first error, as `orErr` keeps it.
unfoldable pub first_error : Option ParallelError → Option ParallelError → Option ParallelError
first_error none later = later
first_error (some e) later = some e

-- The stream that `_open` adds, for an object of the given size.
unfoldable pub next_stream : ℕ → Parallel → ParallelStream
next_stream size c =
    let beyond = lt64 size (add64 c.end_stream c.chunk_size) in
    record {
      offset = c.end_stream;
      size = if beyond then sub64 size c.end_stream else c.chunk_size;
      read_bytes = 0;
    }

unfoldable pub with_stream : Parallel → ParallelStream → Parallel
with_stream c st = record c {
  streams = c.streams ++ st ∷ [];
  end_stream = add64 c.end_stream st.size;
}

module _ {S : Type 0} (o : Streams S) where
  unfoldable pub stopped : S → ParallelStream → List ℕ → Option ReadError → Option (StreamRead S)
  stopped s st bytes err = some (record { world = s; stream = st; bytes = bytes; err = err })

  unfoldable pub after_wait :
      ParallelStream → List ℕ → S × Option ReadError → Option (StreamRead S) → Option (StreamRead S)
  unfolding stopped put_first
  after_wait st bytes (s, some e) more = stopped s st bytes (some e)
  after_wait st bytes (s, none) more = put_first bytes more

  unfoldable pub after_read :
      ParallelStream
      → ℕ
      → S
      → List ℕ
      → Option ReadError
      → Option (StreamRead S)
      → Option (StreamRead S)
  unfolding stopped after_wait is_read
  after_read st len s bytes (some e) more = stopped s st bytes (some e)
  after_read st len s bytes none more =
      if is_read st
      then stopped s st bytes (some eof)
      else (if leb len (length bytes)
          then stopped s st bytes none
          else after_wait st bytes (o.wait s st) more)

  -- The loop of `stream.read` for `len` bytes, with a bound on its rounds; `none` is that it has not ended
  -- by then.
  unfoldable pub stream_read : ℕ → S → ParallelStream → ℕ → Option (StreamRead S)
  unfolding after_read advanced only_failed
  stream_read zero s st len = none
  stream_read (suc k) s st len =
      let answer = o.read s st len in
      let st' = advanced st (length answer.1) in
      let more = stream_read k (o.wait answer.0 st').0 st' (len - length answer.1) in
      after_read st' len answer.0 answer.1 (only_failed answer.2) more

  -- The loop of `_open`.
  unfoldable pub open_loop : ℕ → Parallel → S → Parallel × S
  unfolding next_stream with_stream
  open_loop zero c s = (c, s)
  open_loop (suc k) c s =
      let st = next_stream o.size c in
      let c' = with_stream c st in
      let s' = o.start s st.offset st.size in
      let rest = open_loop k c' s' in if le64 o.size c'.end_stream then (c', s') else rest

  -- `_open`
  unfoldable pub open_streams : Parallel → S → Parallel × S × Option ParallelError
  unfolding open_loop
  open_streams c s =
      if lt64 o.size 0
      then (c, s, some unknown_size)
      else (if le64 o.size c.end_stream
          then (c, s, none)
          else let r = open_loop (c.nstreams - length c.streams) c s in (r.0, r.1, none))

  -- `_popStream`, by the streams.
  unfoldable pub pop_from : Parallel → S → List ParallelStream → Parallel × S × Option ParallelError
  unfolding close_error
  pop_from c s [] = (c, s, none)
  pop_from c s (st ∷ rest) =
      let answer = o.close s st in (record c { streams = rest }, answer.0, close_error answer.1)

  -- `_popStreams`
  unfoldable pub pop_all : Parallel → S → List ParallelStream → Parallel × S × Option ParallelError
  unfolding first_error close_error
  pop_all c s [] = (record c { streams = [] }, s, none)
  pop_all c s (st ∷ rest) =
      let answer = o.close s st in
      let later = pop_all c answer.0 rest in
      (later.0, later.1, first_error (close_error answer.1) later.2)

-- What `Read` returns.
pub record ParallelRead (S : Type 0) : Type 0 where
  pub reader : Parallel
  pub world : S
  pub bytes : List ℕ
  -- EOF of the reader, or an error.
  pub at_end : Bool
  pub err : Option ParallelError

unfoldable pub bytes_first :
    {S : Type 0} → List ℕ → Option (ParallelRead S) → Option (ParallelRead S)
bytes_first bytes none = none
bytes_first bytes (some r) = some (record r { bytes = bytes ++ r.bytes })

unfoldable pub returned :
    {S : Type 0} → Parallel → S → List ℕ → Bool → Option ParallelError → Option (ParallelRead S)
returned c s bytes at_end err =
    some (record { reader = c; world = s; bytes = bytes; at_end = at_end; err = err })

module _ {S : Type 0} (o : Streams S) where
  -- The stream is finished: it is closed, and its error ends the call.
  unfoldable pub after_pop :
      List ℕ
      → Parallel × S × Option ParallelError
      → (Parallel → S → Option (ParallelRead S))
      → Option (ParallelRead S)
  unfolding returned bytes_first
  after_pop bytes (c, s, some e) more = returned c s bytes false (some e)
  after_pop bytes (c, s, none) more = bytes_first bytes (more c s)

  -- What `Read` does with what it read of the first stream; `more` are its other rounds.
  unfoldable pub after_stream :
      Parallel
      → S
      → List ParallelStream
      → List ℕ
      → Option ReadError
      → (Parallel → S → Option (ParallelRead S))
      → Option (ParallelRead S)
  unfolding after_pop returned bytes_first
  after_stream c s streams bytes none more = bytes_first bytes (more c s)
  after_stream c s streams bytes (some eof) more = after_pop bytes (pop_from o c s streams) more
  after_stream c s streams bytes (some e) more = returned c s bytes false (some (stream_failed e))

  unfoldable pub use_stream :
      Parallel
      → List ParallelStream
      → Option (StreamRead S)
      → (ℕ → Parallel → S → Option (ParallelRead S))
      → Option (ParallelRead S)
  unfolding after_stream
  use_stream c rest none more = none
  use_stream c rest (some r) more =
      let streams = r.stream ∷ rest in
      let c' = record c { offset = add64 c.offset (length r.bytes); streams = streams } in
      after_stream c' r.world streams r.bytes r.err (more (length r.bytes))

  unfoldable pub read_first :
      ℕ
      → Parallel
      → S
      → List ParallelStream
      → (ℕ → Parallel → S → Option (ParallelRead S))
      → Option (ParallelRead S)
  unfolding use_stream returned
  read_first len c s [] more = returned c s [] true none
  read_first len c s (st ∷ rest) more = use_stream c rest (stream_read o (suc len) s st len) more

  unfoldable pub read_opened :
      ℕ
      → Parallel × S × Option ParallelError
      → (ℕ → Parallel → S → Option (ParallelRead S))
      → Option (ParallelRead S)
  unfolding read_first returned
  read_opened len (c, s, some e) more = returned c s [] false (some e)
  read_opened len (c, s, none) more = read_first len c s c.streams more

  -- The loop of `Read` for `len` bytes, with a bound on its rounds.
  unfoldable pub read_loop : ℕ → Parallel → S → ℕ → Option (ParallelRead S)
  unfolding read_opened returned
  read_loop zero c s len = if len == 0 then returned c s [] false none else none
  read_loop (suc k) c s len =
      let more : ℕ → Parallel → S → Option (ParallelRead S) =
        λ n c' s'. read_loop k c' s' (len - n) in
      let round = read_opened len (open_streams o c s) more in
      if len == 0 then returned c s [] false none else round

  -- `Read`
  unfoldable pub read : Parallel → S → ℕ → Option (ParallelRead S)
  unfolding read_loop returned
  read c s len =
      if c.closed then returned c s [] false (some parallel_closed) else read_loop len c s len

  -- `Close`
  unfoldable pub close : Parallel → S → Parallel × S × Option ParallelError
  close c s =
      if c.closed
      then (c, s, some parallel_closed)
      else pop_all o (record c { closed = true }) s c.streams
