-- ===== src/ChunkStream/Parallel/Tiles.antt =====
-- The open streams are the parts of the object from the reader's position to the end of the last one,
-- without a gap or an overlap (internal/engine/chunkstream/parallel.go).
use varc.Base.{
  ℕ, zero, suc, ◌+◌, ◌-◌, ◌<◌, ◌≤◌, ◌≡◌, ◌≢◌, ◌⊎◌, ◌∙◌, subst, inl, inr, refl, arith, false, none,
  List, [], ◌∷◌, ◌++◌, length, ltb, leb, add64, sub64, lt64, le64, int64_half, Bool-cases,
}
use varc.Base.Int64.{add64_small, sub64_small, lt64_small, le64_small}
use varc.ChunkStream.Parallel.{
  next_stream, with_stream, ParallelStream, Parallel, Streams, open_loop, open_streams,
}

-- Streams that begin at `from`, none empty, each where the one before ends, the last ending at `fin`. Only
-- the first has been read from, and `read` bytes of it.
abbrev pub Tiles : ℕ → ℕ → List ParallelStream → Type 0
Tiles from fin [] = from ≡ fin
Tiles from fin (st ∷ rest) =
    (st.offset ≡ from) × (0 < st.size) × (st.read_bytes ≡ 0) × Tiles (from + st.size) fin rest

pub Tiles-append :
    (from fin : ℕ) (l : List ParallelStream) (st : ParallelStream)
    → Tiles from fin l
    → st.offset ≡ fin
    → 0 < st.size
    → st.read_bytes ≡ 0
    → Tiles from (fin + st.size) (l ++ st ∷ [])
Tiles-append from fin [] st t e pos z = (omega arith, pos, z, omega arith)
Tiles-append from fin (x ∷ l) st (a, b, c, t) e pos z =
    (a, b, c, Tiles-append (from + x.size) fin l st t e pos z)

pub Tiles-le : (from fin : ℕ) (l : List ParallelStream) → Tiles from fin l → from ≤ fin
Tiles-le from fin [] t = omega arith
Tiles-le from fin (st ∷ l) (a, b, c, t) = omega (arith, Tiles-le (from + st.size) fin l t)

-- The first stream stands at the reader's position.
abbrev pub TilesFrom : ℕ → ℕ → List ParallelStream → Type 0
TilesFrom p fin [] = p ≡ fin
TilesFrom p fin (st ∷ rest) =
    (st.offset + st.read_bytes ≡ p)
    × (st.read_bytes < st.size)
    × Tiles (st.offset + st.size) fin rest

pub record IsTiled (size p : ℕ) (c : Parallel) : Type 0 where
  pub still_open : c.closed ≡ false
  pub at : c.offset ≡ p
  pub tiles : TilesFrom p c.end_stream c.streams
  pub inside : c.end_stream ≤ size
  pub some_chunk : 0 < c.chunk_size
  pub some_streams : 0 < c.nstreams
  pub small : size + c.chunk_size < int64_half

TilesFrom-append :
    (p fin : ℕ) (l : List ParallelStream) (st : ParallelStream)
    → TilesFrom p fin l
    → st.offset ≡ fin
    → 0 < st.size
    → st.read_bytes ≡ 0
    → TilesFrom p (fin + st.size) (l ++ st ∷ [])
TilesFrom-append p fin [] st t e pos z = (omega arith, omega arith, omega arith)
TilesFrom-append p fin (x ∷ l) st (a, b, t) e pos z =
    (a, b, Tiles-append (x.offset + x.size) fin l st t e pos z)

not_nil : (l : List ParallelStream) (st : ParallelStream) → l ++ st ∷ [] ≢ []
not_nil [] st e = cc
not_nil (x ∷ l) st e = cc

-- The stream that is added is not empty and ends inside of the object.
next_stream-Inside :
    (size p : ℕ) (c : Parallel)
    → IsTiled size p c
    → c.end_stream < size
    → (0 < (next_stream size c).size)
      × (c.end_stream + (next_stream size c).size ≤ size)
      × ((next_stream size c).offset ≡ c.end_stream)
      × ((next_stream size c).read_bytes ≡ 0)
unfolding next_stream
next_stream-Inside size p c t less =
    let sum : add64 c.end_stream c.chunk_size ≡ c.end_stream + c.chunk_size =
      add64_small c.end_stream c.chunk_size (omega arith) in
    let test : lt64 size (c.end_stream + c.chunk_size) ≡ ltb size (c.end_stream + c.chunk_size) =
      lt64_small size (c.end_stream + c.chunk_size) (omega arith) (omega arith) in
    let rest : sub64 size c.end_stream ≡ size - c.end_stream =
      sub64_small size c.end_stream (omega arith) (omega arith) in
    rw (sum, test, rest)
      (elim (Bool-cases (ltb size (c.end_stream + c.chunk_size))) [
        | inl y ↦ rw y (omega arith, omega arith, refl, refl)
        | inr n ↦ rw n (omega arith, ground arith, refl, refl)
      ])

with_stream-IsTiled :
    (size p : ℕ) (c : Parallel) (st : ParallelStream)
    → IsTiled size p c
    → 0 < st.size
    → c.end_stream + st.size ≤ size
    → st.offset ≡ c.end_stream
    → st.read_bytes ≡ 0
    → IsTiled size p (with_stream c st)
unfolding with_stream
with_stream-IsTiled size p c st t positive le at fresh =
    let sum : add64 c.end_stream st.size ≡ c.end_stream + st.size =
      add64_small c.end_stream st.size (omega arith) in
    record {
      still_open = t.still_open;
      at = t.at;
      tiles = rw sum (TilesFrom-append p c.end_stream c.streams st t.tiles at positive fresh);
      inside = rw sum le;
      some_chunk = t.some_chunk;
      some_streams = t.some_streams;
      small = t.small;
    }

with_stream_not_nil : (c : Parallel) (st : ParallelStream) → (with_stream c st).streams ≢ []
unfolding with_stream
with_stream_not_nil c st = not_nil c.streams st

room : (l : List ParallelStream) (n : ℕ) → 0 < n → (0 < n - length l) ⊎ (l ≢ [])
room [] n h = inl (omega arith)
room (x ∷ l) n h = inr (λ e. cc)

pub not_le64 : (a b : ℕ) → le64 a b ≡ false → b ≤ a → a < int64_half → b < a
not_le64 a b e le small = ground (arith, e, le64_small a b small (omega arith))

module _ {S : Type 0} (o : Streams S) where
  -- After `_open` the streams are tiled as before, and there is one unless the reader is at the end.
  pub record Opened (p : ℕ) (c : Parallel) : Type 0 where
    pub tiled : IsTiled o.size p c
    pub some_stream : c.streams ≡ [] → p ≡ o.size

  open_loop-IsTiled :
      (k : ℕ) (c : Parallel) (s : S) (p : ℕ)
      → IsTiled o.size p c
      → c.end_stream < o.size
      → (0 < k) ⊎ (c.streams ≢ [])
      → IsTiled o.size p (open_loop o k c s).0 × ((open_loop o k c s).0.streams ≢ [])
  unfolding open_loop
  open_loop-IsTiled zero c s p t less (inl h) = absurd (omega arith)
  open_loop-IsTiled zero c s p t less (inr h) = (t, h)
  open_loop-IsTiled (suc k) c s p t less h =
      let st : ParallelStream = next_stream o.size c in
      let i = next_stream-Inside o.size p c t less in
      let t' = with_stream-IsTiled o.size p c st t i.0 i.1 i.2 i.3 in
      let some_stream = with_stream_not_nil c st in
      elim (Bool-cases (le64 o.size (with_stream c st).end_stream)) [
        | inl y ↦ rw y (t', some_stream)
        | inr n ↦ rw n (
            open_loop-IsTiled k (with_stream c st) (o.start s st.offset st.size) p t'
              (not_le64 o.size (with_stream c st).end_stream n t'.inside (omega (arith, t.small)))
              (inr some_stream))
      ]

  -- For a reader that is open and has tiled streams from its position on, with a positive chunk size and number
  -- of streams, where the object's size and the chunk size have a sum below 2 ^ 63: `_open` has no error, and after
  -- it the streams still cover the object from the reader's position to the last one's end, without a gap or an
  -- overlap, none of them empty or beyond the object. There is one, unless the reader is at the end of the object.
  pub open_streams-Opened :
      (c : Parallel) (s : S) (p : ℕ)
      → IsTiled o.size p c
      → Opened p (open_streams o c s).0 × ((open_streams o c s).2 ≡ none)
  unfolding open_streams
  open_streams-Opened c s p t =
      let positive : lt64 o.size 0 ≡ false =
        lt64_small o.size 0 (omega arith) (omega arith) ∙ ground arith in
      let test : le64 o.size c.end_stream ≡ leb o.size c.end_stream =
        le64_small o.size c.end_stream (omega arith) (omega arith) in
      rw (positive, test)
        (elim (Bool-cases (leb o.size c.end_stream)) [
          | inl y ↦ rw y (
            record {
              tiled = t;
              some_stream = λ e.
                  let f : TilesFrom p c.end_stream [] =
                    subst (TilesFrom p c.end_stream) e t.tiles in
                  ground (arith, f, y);
            },
            refl,
          )
          | inr n ↦ rw n (
              let r =
                open_loop-IsTiled (c.nstreams - length c.streams) c s p t (ground arith)
                  (room c.streams c.nstreams t.some_streams) in
              (record { tiled = r.0; some_stream = λ e. absurd (r.1 e) }, refl))
        ])
