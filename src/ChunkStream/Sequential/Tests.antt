-- ===== src/ChunkStream/Sequential/Tests.antt =====
-- An object of ten bytes that is read in chunks of three, six and six bytes, whose streams return two
-- bytes at a time.
use varc.Base.{
  ℕ, zero, suc, ◌+◌, ◌-◌, ◌≡◌, inl, inr, refl, arith, true, false, Option, none, some, List, [],
  ◌∷◌, length, get_or, ◌<◌, ltb, ◌==◌, if◌then◌else◌, min, add64, sub64, lt64, le64,
}
use varc.ObjectIo.{eof, failed}
use varc.ObjectIo.Spans.{span_start, span_stop}
use varc.PageBuffer.{from_start}
use varc.ChunkStream.{Source}
use varc.ChunkStream.Sequential.{
  Sequential, SequentialRead, new_sequential, read, range_seek, read_loop, prepare, open_range,
  sought_range, opened_range, reset_reader, replaced, chunk_span, next_chunk, doubled, chunk_part,
  moved, read_prepared, read_part, after_part, with_front, read_full, filled_by, add_front,
  at_chunk_end,
}
use varc.ChunkStream.Sequential.Live.{IsSource}
use varc.ChunkStream.Sequential.Prepare.{IsWaiting}
use varc.ChunkStream.Sequential.Reads.{IsRead, sequential_read}
use varc.ChunkStream.Sequential.Seeks.{seek_read}

record Stream : Type 0 where
  place : ℕ
  fin : ℕ

abbrev origin : ℕ → ℕ
origin x = x + 100

abbrev count_up : ℕ → ℕ → List ℕ
count_up zero p = []
count_up (suc n) p = origin p ∷ count_up n (p + 1)

abbrev ten_bytes : Source Stream
ten_bytes = record {
  size = 10;
  open_span = λ s sp. (record { place = span_start sp; fin = min 10 (span_stop 10 sp) }, none);
  read = λ s n.
      let m = min 2 (min n (s.fin - s.place)) in
      (
        record s { place = s.place + m },
        count_up m s.place,
        if ltb 0 m
            then none
            else if n == 0
            then none
            else (if s.fin == s.place then some eof else some (failed 1 true)),
      );
  close = λ s. (s, none);
  adopt = λ s. s;
  range_seek = λ s offset n. (s, false);
}

length-count_up : (n p : ℕ) → length (count_up n p) ≡ n
length-count_up zero p = refl
length-count_up (suc n) p = omega (arith, length-count_up n (p + 1))

get_or-count_up : (n p i : ℕ) → i < n → get_or (count_up n p) i 0 ≡ p + i + 100
get_or-count_up zero p i lt = absurd (omega arith)
get_or-count_up (suc n) p zero lt = omega arith
get_or-count_up (suc n) p (suc i) lt = omega (arith, get_or-count_up n (p + 1) i (omega arith))

ten_bytes-IsSource : IsSource origin 10 20 (λ s. s.place) (λ s. s.fin) ten_bytes
ten_bytes-IsSource = record {
  sizes = refl;
  answers = λ s n.
      let m : ℕ = min 2 (min n (s.fin - s.place)) in
      let e = length-count_up m s.place in
      record {
        few = omega (arith, e);
        sound = λ i lt. get_or-count_up m s.place i (omega (arith, e));
        moves = omega (arith, e);
        keeps = refl;
        within = λ h. omega arith;
        ends = λ h. ground (arith, h);
        progress = λ positive h. ground (arith, h, e);
      };
  opens = λ s sp. record {
    first = λ _. record { begins = refl; until = refl };
    after = λ _ _. record { begins = refl; until = refl };
    no_end = λ h. cc;
  };
  closes = λ s h. cc;
  seeks = λ s offset n h. cc;
}

abbrev reader : Sequential
reader = new_sequential 3 6

abbrev stream : Stream
stream = record { place = 0; fin = 0 }

bytes_of : Option (SequentialRead Stream) → List ℕ
bytes_of none = []
bytes_of (some r) = r.bytes

read_test : bytes_of (read ten_bytes reader stream 5) ≡ 100 ∷ 101 ∷ 102 ∷ 103 ∷ 104 ∷ []
unfolding bytes_of read new_sequential read_loop prepare open_range sought_range opened_range
    reset_reader replaced chunk_span next_chunk doubled chunk_part moved read_prepared read_part
    after_part with_front read_full filled_by add_front at_chunk_end lt64 le64 add64 sub64
read_test = refl

new_sequential-IsWaiting : IsWaiting {S = Stream} origin 10 20 (λ s. s.place) (λ s. s.fin) 0 reader
unfolding new_sequential
new_sequential-IsWaiting = record {
  chunked = record {
    still_open = refl;
    sized = inr (omega arith, omega arith);
    initially = inr (omega arith, omega arith);
    at_most = inr (omega arith, omega arith);
  };
  at = refl;
  in_chunk = refl;
  in_size = omega arith;
}

sequential_read_example :
    (q : SequentialRead Stream) × (read ten_bytes reader stream 9 ≡ some q)
    × IsRead origin 10 20 (λ s. s.place) (λ s. s.fin) 0 9 q
sequential_read_example =
    sequential_read origin 10 20 (λ s. s.place) (λ s. s.fin) ten_bytes ten_bytes-IsSource
      (omega arith) (omega arith) reader stream 0 9 (inl new_sequential-IsWaiting) (omega arith)

seek_read_example :
    let c' = range_seek reader 10 4 from_start 5 in
    (c'.1 ≡ 4)
    × (c'.2 ≡ none)
    × (q : SequentialRead Stream) × (read ten_bytes c'.0 stream 6 ≡ some q)
    × IsRead origin 10 20 (λ s. s.place) (λ s. s.fin) 4 6 q
seek_read_example =
    seek_read origin 10 20 (λ s. s.place) (λ s. s.fin) ten_bytes ten_bytes-IsSource (omega arith)
      (omega arith) reader stream 0 4 5 6 (inl new_sequential-IsWaiting) (omega arith)
      (λ _. omega arith) (omega arith)
