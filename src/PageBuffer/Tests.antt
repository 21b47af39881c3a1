-- ===== src/PageBuffer/Tests.antt =====
-- Runs of RW on pages of four bytes (bufferpool/reader_writer.go).
use varc.Base.{
  ℕ, ◌-◌, ◌≡◌, refl, arith, Bool, true, false, Option, none, some, List, [], ◌∷◌, length,
}
use varc.PageBuffer.{Rw, eof, seek_past_end, from_start, from_end, Writer, new_rw, write}
use varc.PageBuffer.Bytes.{IsPages}
use varc.PageBuffer.Writes.{Writes, write-Writes}
use varc.PageBuffer.Queue.Simulates.{rw_run-refines}
use varc.PageBuffer.Queue.{RwCall, writes, reads, seeks, wrote, got, at_position, rw_run, queue_run}

-- A buffer with old bytes in it.
abbrev old_buffer : ℕ → List ℕ
old_buffer i = 9 ∷ 9 ∷ 9 ∷ 9 ∷ []

abbrev six_bytes : List ℕ
six_bytes = 1 ∷ 2 ∷ 3 ∷ 4 ∷ 5 ∷ 6 ∷ []

abbrev some_calls : List RwCall
some_calls =
    writes six_bytes
    ∷ reads 5
    ∷ writes (7 ∷ [])
    ∷ seeks 3 from_start
    ∷ reads 10
    ∷ seeks 1 from_end
    ∷ []

queue_answers :
    queue_run (record { data_ = []; at = 0 }) some_calls
    ≡ wrote 6 none
      ∷ got (1 ∷ 2 ∷ 3 ∷ 4 ∷ 5 ∷ []) none
      ∷ wrote 1 none
      ∷ at_position 3 none
      ∷ got (4 ∷ 5 ∷ 6 ∷ 7 ∷ []) (some eof)
      ∷ at_position 0 (some seek_past_end)
      ∷ []
unfolding varc.Base.lt64 varc.Base.add64 varc.Base.sub64
queue_answers = refl

rw_run-refines_example :
    rw_run old_buffer (new_rw 4) some_calls ≡ queue_run (record { data_ = []; at = 0 }) some_calls
rw_run-refines_example =
    rw_run-refines 4 old_buffer (λ i. refl) some_calls (omega arith) (omega arith)

-- An observer that counts its calls and takes one byte too few.
abbrev short_observer : Writer ℕ
short_observer o bytes = (o, length bytes - 1, none)

abbrev empty_rw : Rw
empty_rw = record {
  buffer_size = 4;
  closed = false;
  active = 0;
  pages = [];
  size = 0;
  last_offset = 0;
  out = 0;
  reserved = [];
}

empty_rw-IsPages : IsPages empty_rw
empty_rw-IsPages = record {
  positive = omega arith;
  sized = tt;
  spare = tt;
  fits = varc.Base.inl (refl, refl, refl);
  last_fits = omega arith;
  inside = omega arith;
}

write-Writes_example :
    Writes empty_rw six_bytes (write (some short_observer) old_buffer empty_rw 0 six_bytes)
write-Writes_example =
    write-Writes (some short_observer) old_buffer empty_rw 0 six_bytes empty_rw-IsPages refl
      (λ i. refl)
