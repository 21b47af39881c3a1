-- ===== src/ObjectIo/Tests.antt =====
-- A stream that returns a byte at a time and fails once, and a reader of it.
use varc.Base.{
  ℕ, ◌+◌, ◌-◌, ◌≡◌, refl, arith, true, false, ◌&&◌, Option, none, some, List, [], ◌∷◌, ltb, ◌==◌,
  if◌then◌else◌, add64, sub64, lt64,
}
use varc.ObjectIo.{
  Span, eof, failed, Object, RetryReader, Reading, new_reader, open_object, opening, open_retrying,
  read, span_for_open, read_unless, read_loop, take_in, add_bytes, recover, reopen, resumed,
  done_with, is_eof, is_no_retry,
}
use varc.ObjectIo.Spans.{span_start, stream_stop, IsObject, Progresses, IsReader}
use varc.ObjectIo.Reads.{ReadsSome, read-Reads, read-open_retrying}

record Stream : Type 0 where
  place : ℕ
  rest : ℕ
  glitches : ℕ

-- An object of 8 bytes, each its place and 100, which cuts a span at its end; byte 3 fails while glitches are left.
abbrev origin : ℕ → ℕ
origin x = x + 100

abbrev glitchy : Object Stream
glitchy = record {
  open_span = λ s sp.
      if ltb (stream_stop 8 sp) (span_start sp)
      then (s, some (failed 1 true))
      else (record s { place = span_start sp; rest = stream_stop 8 sp - span_start sp }, none);
  read = λ s n.
      if s.rest == 0
      then (s, ([], some eof))
      else (if (s.place == 3) && ltb 0 s.glitches
          then (record s { glitches = s.glitches - 1 }, ([], some (failed 2 false)))
          else (if ltb 0 n && ltb s.place 8
              then (
                record s { place = s.place + 1; rest = s.rest - 1 },
                (origin s.place ∷ [], none),
              )
              else (s, ([], if n == 0 then none else some (failed 3 true)))));
  close = λ s. s;
}

glitchy-IsObject : IsObject glitchy origin 8 (λ s. s.place) (λ s. s.place + s.rest)
glitchy-IsObject = record {
  opens = λ s sp ok. ground arith;
  stops = λ s sp ok. ground arith;
  sound = λ s n i lt. ground arith;
  bound = λ s n. ground arith;
  moves = λ s n. ground arith;
  keeps = λ s n. ground arith;
  within = λ s n le. ground arith;
  ends = λ s n e. ground arith;
}

glitchy-Progresses : Progresses glitchy
glitchy-Progresses s n pos e = ground arith

-- A reader of the whole object that has consumed one byte, and its stream.
abbrev reader : RetryReader
reader = record {
  base_span = none;
  start = 0;
  stop = 8;
  offset = 1;
  max_tries = 3;
  tries = 1;
  err = none;
  opened = true;
}

abbrev stream : Stream
stream = record { place = 1; rest = 7; glitches = 1 }

reader-IsReader : IsReader 8 0 8 reader
reader-IsReader = record {
  starts = refl;
  base_start = refl;
  base_stop = refl;
  ends = refl;
  small = omega arith;
  nothing = λ e. omega arith;
}

bytes_of : Option (Reading Stream) → List ℕ
bytes_of none = []
bytes_of (some w) = w.bytes

-- The read goes on after the glitch, in the same place.
read_test : bytes_of (read glitchy 6 reader stream 4) ≡ 101 ∷ 102 ∷ 103 ∷ 104 ∷ []
unfolding bytes_of read read_unless read_loop take_in add_bytes add64 recover reopen open_object
    opening resumed done_with span_for_open lt64 sub64 is_eof is_no_retry
read_test = refl

read-Reads_example :
    ReadsSome glitchy origin 8
      (λ s. s.place)
      (λ s. s.place + s.rest)
      glitchy-IsObject
      (omega arith)
      0
      8
      reader
      4
      (read glitchy 6 reader stream 4)
read-Reads_example =
    read-Reads glitchy origin 8 (λ s. s.place) (λ s. s.place + s.rest) glitchy-IsObject
      (omega arith) 0 8 reader stream 4 6 glitchy-Progresses reader-IsReader refl
      (record { stands = refl; until = refl }) (omega arith) (omega arith)

-- A span that ends after the object.
abbrev long_span : Span
long_span = record { start = 2; stop = 20 }

read-open_retrying_example :
    ReadsSome glitchy origin 8
      (λ s. s.place)
      (λ s. s.place + s.rest)
      glitchy-IsObject
      (omega arith)
      2
      21
      (open_retrying glitchy 8 3 (some long_span) stream).0
      9
      (read glitchy 12
        (open_retrying glitchy 8 3 (some long_span) stream).0
        (open_retrying glitchy 8 3 (some long_span) stream).1
        9)
unfolding open_retrying open_object opening new_reader add64 lt64 span_for_open
read-open_retrying_example =
    read-open_retrying glitchy origin 8 (λ s. s.place) (λ s. s.place + s.rest) glitchy-IsObject
      (omega arith) 2 21 3 (some long_span) stream 9 12 glitchy-Progresses refl refl (omega arith)
      (omega arith) (λ e. omega arith) (omega arith) refl
