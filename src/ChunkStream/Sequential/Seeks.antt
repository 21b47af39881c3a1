-- ===== src/ChunkStream/Sequential/Seeks.antt =====
-- A `RangeSeek` to a place in the object, with whatever length, and the `Read` that follows it
-- (internal/engine/chunkstream/sequential.go).
use varc.Base.{
  ℕ, ◌+◌, ◌<◌, ◌≤◌, ◌≡◌, ap, sym, subst, if◌then◌else◌, ◌∙◌, inl, inr, refl, arith, true, false,
  ◌||◌, none, some, add64, lt64, le64, int64_half, Bool-cases,
}
use varc.Base.Int64.{add64_small, lt64_small, le64_small}
use varc.PageBuffer.{from_start}
use varc.ChunkStream.{Source}
use varc.ChunkStream.Sequential.{
  Sequential, SequentialRead, file_closed, seek_base, sought_chunk, sought_from, range_seek, read,
}
use varc.ChunkStream.Sequential.Live.{IsChunked, IsSource}
use varc.ChunkStream.Sequential.Prepare.{IsWaiting, IsLive}
use varc.ChunkStream.Sequential.Reads.{IsRead, IsLive-still_open, sequential_read}

range_seek_open :
    (c : Sequential) (size place length : ℕ)
    → c.closed ≡ false
    → place < int64_half
    → range_seek c size place from_start length ≡ sought_chunk c size length place
unfolding range_seek seek_base sought_from
range_seek_open c size place length e small =
    ap (λ b. if b then (c, 0, some file_closed) else sought_chunk c size length (add64 0 place)) e
    ∙ ap (sought_chunk c size length) (add64_small 0 place (omega arith) ∙ omega arith)

module _ {S : Type 0} (origin : ℕ → ℕ) (size bound : ℕ) (pos stop : S → ℕ) where
  module _ (fits : size + bound < int64_half) where
    some_length : (length : ℕ) → lt64 0 length ≡ true → length ≤ bound → 0 < length
    some_length length h le = ground (arith, h, lt64_small 0 length (omega arith) (omega arith))

    sought_chunk-IsWaiting :
        (c : Sequential) (place length : ℕ)
        → IsChunked bound c
        → place < size
        → (lt64 0 length ≡ true → length ≤ bound)
        → IsWaiting origin size bound pos stop place (sought_chunk c size length place).0
          × ((sought_chunk c size length place).1 ≡ place)
          × ((sought_chunk c size length place).2 ≡ none)
    unfolding sought_chunk
    sought_chunk-IsWaiting c place length chunked less most =
        let inside : (lt64 place 0 || le64 size place) ≡ false =
          rw
            (
              lt64_small place 0 (omega arith) (omega arith),
              le64_small size place (omega arith) (omega arith),
            )
            (ground arith) in
        rw inside (elim (Bool-cases (lt64 0 length)) [
          | inl y ↦ rw y (
            record {
              chunked = record {
                still_open = chunked.still_open;
                sized = inr (some_length length y (most y), most y);
                initially = chunked.initially;
                at_most = chunked.at_most;
              };
              at = refl;
              in_chunk = refl;
              in_size = omega arith;
            },
            refl,
            refl,
          )
          | inr n ↦ rw n (
            record {
              chunked = record {
                still_open = chunked.still_open;
                sized = chunked.initially;
                initially = chunked.initially;
                at_most = chunked.at_most;
              };
              at = refl;
              in_chunk = refl;
              in_size = omega arith;
            },
            refl,
            refl,
          )
        ])

  module _ (o : Source S) (source : IsSource origin size bound pos stop o)
      (fits : size + bound < int64_half) (room : size + size ≤ bound) where
    IsLive-IsChunked :
        (c : Sequential) (s : S) (p : ℕ)
        → IsLive origin size bound pos stop p c s
        → IsChunked bound c
    IsLive-IsChunked c s p (inl w) = w.chunked
    IsLive-IsChunked c s p (inr r) = r.chunked

    range_seek-IsWaiting :
        (c : Sequential) (s : S) (p place length : ℕ)
        → IsLive origin size bound pos stop p c s
        → place < size
        → (lt64 0 length ≡ true → length ≤ bound)
        → IsWaiting origin size bound pos stop place (range_seek c size place from_start length).0
          × ((range_seek c size place from_start length).1 ≡ place)
          × ((range_seek c size place from_start length).2 ≡ none)
    range_seek-IsWaiting c s p place length live less most =
        let e =
          range_seek_open c size place length
            (IsLive-still_open origin size bound pos stop o source fits room c s p live)
            (omega arith) in
        subst (λ a. IsWaiting origin size bound pos stop place a.0 × (a.1 ≡ place) × (a.2 ≡ none))
          (sym e)
          (sought_chunk-IsWaiting fits c place length (IsLive-IsChunked c s p live) less most)

    -- For such an object and reader, `RangeSeek` with whence SeekStart to a place before the end, for a length that is at most
    -- `bound` or not positive, returns the place, and `Read` of `n` bytes after it ends with at most `n`
    -- bytes, which are the object's from that place on; without an error there are `n` and the reader
    -- stands after them.
    pub seek_read :
        (c : Sequential) (s : S) (p place length n : ℕ)
        → IsLive origin size bound pos stop p c s
        → place < size
        → (lt64 0 length ≡ true → length ≤ bound)
        → n < int64_half
        → let c' = range_seek c size place from_start length in
          (c'.1 ≡ place)
          × (c'.2 ≡ none)
          × (q : SequentialRead S) × (read o c'.0 s n ≡ some q)
          × IsRead origin size bound pos stop place n q
    seek_read c s p place length n live less most small =
        let (waits, at, fine) = range_seek-IsWaiting c s p place length live less most in
        let (q, run, is) =
          sequential_read origin size bound pos stop o source fits room
            (range_seek c size place from_start length).0 s place n (inl waits) small in
        (at, fine, q, run, is)
