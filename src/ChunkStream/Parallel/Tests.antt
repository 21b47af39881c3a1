-- ===== src/ChunkStream/Parallel/Tests.antt =====
-- An object of 3 MiB in streams of a MiB, two at a time; after each read the buffer of a stream is empty
-- until the reader waits.
use varc.Base.{
  ℕ, ◌+◌, ◌-◌, ◌≡◌, refl, arith, none, some, List, [], ◌∷◌, min, ◌==◌, if◌then◌else◌, lt64, le64,
  add64, sub64,
}
use varc.ObjectIo.{eof}
use varc.StreamBuf.Produced.{segment}
use varc.ChunkStream.Parallel.{
  ParallelStream, Parallel, Streams, new_parallel, whole_buffers, open_streams, open_loop,
  next_stream, with_stream,
}
use varc.PageBuffer.{from_start}
use varc.ChunkStream.Parallel.Seek.{seek_base, seek}
use varc.ChunkStream.Parallel.Seeks.{IsSought, seek-IsSought}
use varc.ChunkStream.Parallel.Tiles.{IsTiled, Opened, open_streams-Opened}

abbrev origin : ℕ → ℕ
origin x = x + 100

abbrev count : ℕ → ParallelStream → ℕ → ℕ
count s st n = if s == 0 then 0 else min 2 (min n (st.size - st.read_bytes))

abbrev buffered : Streams ℕ
buffered = record {
  size = 3145728;
  start = λ s offset size. s;
  read = λ s st n. (
    0,
    segment origin (st.offset + st.read_bytes) (count s st n),
    if count s st n == 0 then some eof else none,
  );
  wait = λ s st. (1, none);
  seek = λ s st place. (s, none);
  close = λ s st. (s, none);
}

abbrev reader : Parallel
reader = new_parallel 1000000 2

reader-IsTiled : IsTiled 3145728 0 reader
unfolding new_parallel whole_buffers lt64 add64
reader-IsTiled = record {
  still_open = refl;
  at = refl;
  tiles = refl;
  inside = omega arith;
  some_chunk = omega arith;
  some_streams = omega arith;
  small = omega arith;
}

ends_of : List ParallelStream → List ℕ
ends_of [] = []
ends_of (st ∷ rest) = (st.offset + st.size) ∷ ends_of rest

open_test : ends_of (open_streams buffered reader 0).0.streams ≡ 1048576 ∷ 2097152 ∷ []
unfolding ends_of open_streams open_loop next_stream with_stream new_parallel whole_buffers lt64
    le64 add64 sub64
open_test = refl

abbrev two_open : Parallel
two_open = (open_streams buffered reader 0).0

two_open-IsTiled : IsTiled 3145728 0 two_open
two_open-IsTiled = (open_streams-Opened buffered reader 0 0 reader-IsTiled).0.tiled

open_streams-Opened_example :
    Opened buffered 0 (open_streams buffered reader 0).0
    × ((open_streams buffered reader 0).2 ≡ none)
open_streams-Opened_example = open_streams-Opened buffered reader 0 0 reader-IsTiled

-- A seek into the second of two open streams.
seek-IsSought_example : IsSought buffered 0 1500000 (seek buffered two_open 0 1500000 from_start)
unfolding add64 seek_base
seek-IsSought_example =
    seek-IsSought buffered two_open 0 0 1500000 1500000 from_start two_open-IsTiled refl
      (omega arith)
