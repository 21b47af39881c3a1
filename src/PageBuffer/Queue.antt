-- ===== src/PageBuffer/Queue.antt =====
-- `RW` refines a queue of bytes with a read position: any sequence of Write, Read and Seek gives the
-- same results on both (bufferpool/reader_writer.go).
pub mod Simulates
use varc.Base.{
  ℕ, ◌+◌, ◌≤◌, ◌<◌, ◌≡◌, ◌∙◌, inl, inr, refl, sym, ap, subst, arith, true, false, Option, none,
  some, List, [], ◌∷◌, ◌++◌, length, take, drop, ltb, if◌then◌else◌, add64, sub64, lt64, int64_half,
  length-append, length-take-min, take_all, Bool-cases,
}
use varc.PageBuffer.{
  Rw, RwError, eof, read, write, Whence, from_start, from_current, from_end, from_elsewhere,
  seek_base, seek_to, seek, invalid_whence, negative_seek, seek_past_end, new_rw,
}
use varc.PageBuffer.Bytes.{IsPages, contents, concat}
use varc.PageBuffer.Reads.{read-Reads}
use varc.PageBuffer.Writes.{write-Writes, write_quiet}

pub data RwCall : Type 0 where
  writes : List ℕ → RwCall
  reads : ℕ → RwCall
  seeks : ℕ → Whence → RwCall

pub data RwAnswer : Type 0 where
  wrote : ℕ → Option RwError → RwAnswer
  got : List ℕ → Option RwError → RwAnswer
  at_position : ℕ → Option RwError → RwAnswer

unfoldable pub rw_step : (ℕ → List ℕ) → Rw → RwCall → Rw × RwAnswer
rw_step gives b (writes p) =
    let r = write {O = Unit {0}} none gives b tt p in (r.rw, wrote r.n r.err)
rw_step gives b (reads len) = let r = read b len in (r.rw, got r.bytes r.err)
rw_step gives b (seeks offset whence) =
    let (b', position, err) = seek b offset whence in (b', at_position position err)

unfoldable pub rw_run : (ℕ → List ℕ) → Rw → List RwCall → List RwAnswer
rw_run gives b [] = []
rw_run gives b (c ∷ cs) = (rw_step gives b c).1 ∷ rw_run gives (rw_step gives b c).0 cs

-- The specification: the bytes written so far, and the position of the next read.
pub record ByteQueue : Type 0 where
  pub data_ : List ℕ
  pub at : ℕ

abbrev pub position : ByteQueue → Whence → Option ℕ
position q from_start = some 0
position q from_current = some q.at
position q from_end = some (length q.data_)
position q from_elsewhere = none

abbrev pub queue_seek : ByteQueue → ℕ → Option ℕ → ByteQueue × RwAnswer
queue_seek q offset none = (q, at_position 0 (some invalid_whence))
queue_seek q offset (some base) =
    let target = add64 base offset in
    if lt64 target 0
    then (q, at_position 0 (some negative_seek))
    else (if lt64 (length q.data_) target
        then (q, at_position (sub64 offset (sub64 target (length q.data_))) (some seek_past_end))
        else (record q { at = target }, at_position target none))

abbrev pub queue_step : ByteQueue → RwCall → ByteQueue × RwAnswer
queue_step q (writes p) = (record q { data_ = q.data_ ++ p }, wrote (length p) none)
queue_step q (reads len) =
    let bytes = take len (drop q.at q.data_) in
    (
      record q { at = q.at + length bytes },
      got bytes (if ltb (length bytes) len then some eof else none),
    )
queue_step q (seeks offset whence) = queue_seek q offset (position q whence)

abbrev pub queue_run : ByteQueue → List RwCall → List RwAnswer
queue_run q [] = []
queue_run q (c ∷ cs) = (queue_step q c).1 ∷ queue_run (queue_step q c).0 cs

-- How many bytes the calls write.
abbrev pub written : List RwCall → ℕ
written [] = 0
written (writes p ∷ cs) = length p + written cs
written (reads len ∷ cs) = written cs
written (seeks offset whence ∷ cs) = written cs
