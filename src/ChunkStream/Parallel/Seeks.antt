-- ===== src/ChunkStream/Parallel/Seeks.antt =====
-- A `Seek` into the object, whichever streams are kept
-- (internal/engine/chunkstream/parallel.go).
use varc.Base.{
  ap, Option, none, ◌⊎◌, ℕ, ◌+◌, ◌-◌, ◌<◌, ◌≤◌, ◌≡◌, sym, subst, inl, inr, refl, arith, false, ◌||◌,
  some, List, [], ◌∷◌, ltb, leb, ◌==◌, if◌then◌else◌, add64, sub64, lt64, le64, int64_half,
  Bool-cases,
}
use varc.Base.Int64.{add64_small, sub64_small, lt64_small, le64_small}
use varc.PageBuffer.{Whence}
use varc.ChunkStream.Parallel.{
  ParallelStream, Parallel, Streams, parallel_closed, pop_all, ParallelError, close_error,
}
use varc.ChunkStream.Parallel.Seek.{drop_before, seek_first, seek_base, seek_to, seek}
use varc.ChunkStream.Parallel.Tiles.{Tiles-le, Tiles, TilesFrom, IsTiled}

-- Streams that follow one another up to `fin`, from wherever the first begins.
abbrev Follows : ℕ → List ParallelStream → Type 0
Follows fin [] = Unit {0}
Follows fin (st ∷ rest) = Tiles (st.offset + st.size) fin rest

TilesFrom-Follows : (p fin : ℕ) (l : List ParallelStream) → TilesFrom p fin l → Follows fin l
TilesFrom-Follows p fin [] t = tt
TilesFrom-Follows p fin (st ∷ rest) (a, b, t) = t

Tiles-Follows : (from fin : ℕ) (l : List ParallelStream) → Tiles from fin l → Follows fin l
Tiles-Follows from fin [] t = tt
Tiles-Follows from fin (st ∷ rest) (a, b, c, t) = subst (λ q. Tiles q fin rest) (omega arith) t

-- The first of them, if any, ends after `place`.
abbrev EndsAfter : ℕ → ℕ → List ParallelStream → Type 0
EndsAfter place fin [] = Unit {0}
EndsAfter place fin (st ∷ rest) =
    (place < st.offset + st.size) × Tiles (st.offset + st.size) fin rest

with_place :
    (size : ℕ) (c : Parallel) (p place fin : ℕ) (l : List ParallelStream)
    → IsTiled size p c
    → fin ≤ size
    → TilesFrom place fin l
    → IsTiled size place (record c { offset = place; end_stream = fin; streams = l })
with_place size c p place fin l t le tiles = record {
  still_open = t.still_open;
  at = refl;
  tiles = tiles;
  inside = le;
  some_chunk = t.some_chunk;
  some_streams = t.some_streams;
  small = t.small;
}

module _ {S : Type 0} (o : Streams S) where
  drop_before-EndsAfter :
      (place fin : ℕ) (s : S) (l : List ParallelStream)
      → place < int64_half
      → fin < int64_half
      → Follows fin l
      → EndsAfter place fin (drop_before o place s l).1
  unfolding drop_before
  drop_before-EndsAfter place fin s [] small below f = tt
  drop_before-EndsAfter place fin s (st ∷ rest) small below f =
      let le = Tiles-le (st.offset + st.size) fin rest f in
      let sum : add64 st.offset st.size ≡ st.offset + st.size =
        add64_small st.offset st.size (omega arith) in
      let test : le64 (st.offset + st.size) place ≡ leb (st.offset + st.size) place =
        le64_small (st.offset + st.size) place (omega arith) small in
      rw (sum, test)
        (elim (Bool-cases (leb (st.offset + st.size) place)) [
          | inl y ↦ rw y (
              drop_before-EndsAfter place fin (o.close s st).0 rest small below
                (Tiles-Follows (st.offset + st.size) fin rest f))
          | inr n ↦ rw n (ground arith, f)
        ])

  pop_all_lem :
      (c : Parallel) (s : S) (l : List ParallelStream)
      → (pop_all o c s l).0 ≡ record c { streams = [] }
  unfolding pop_all
  pop_all_lem c s [] = refl
  pop_all_lem c s (st ∷ rest) = pop_all_lem c (o.close s st).0 rest

  -- How the first of the streams has come to its place: it did not move, or its buffer was sought to
  -- the byte that is read next, and the error is that of this seek.
  abbrev FirstSought : ℕ → ℕ → List ParallelStream → S → Option ParallelError → Type 0
  FirstSought p place [] s' e = e ≡ none
  FirstSought p place (st ∷ rest) s' e =
      (place ≡ p)
      ⊎ ((s0 : S) × (st0 : ParallelStream) × (st0.offset ≡ st.offset)
          × (s' ≡ (o.seek s0 st0 (place - st.offset)).0)
          × (e ≡ close_error (o.seek s0 st0 (place - st.offset)).1))

  abbrev pub IsSought : ℕ → ℕ → Parallel × S × Option ParallelError → Type 0
  IsSought p place (c, s, e) = IsTiled o.size place c × FirstSought p place c.streams s e

  seek_first-IsTiled :
      (c : Parallel) (s : S) (p place : ℕ) (l : List ParallelStream)
      → IsTiled o.size p c
      → place < o.size
      → EndsAfter place c.end_stream l
      → IsTiled o.size place (seek_first o (record c { offset = place }) s l).0
  unfolding seek_first
  seek_first-IsTiled c s p place [] t less e =
      with_place o.size c p place place [] t (omega arith) refl
  seek_first-IsTiled c s p place (st ∷ rest) t less (before, tiles) =
      let le = Tiles-le (st.offset + st.size) c.end_stream rest tiles in
      let test : lt64 place st.offset ≡ ltb place st.offset =
        lt64_small place st.offset (omega (arith, t.small)) (omega (arith, t.inside, t.small)) in
      rw test (elim (Bool-cases (ltb place st.offset)) [
        | inl y ↦ rw y (
            subst (λ (x : Parallel). IsTiled o.size place (record x { end_stream = place }))
              (sym (pop_all_lem (record c { offset = place }) s (st ∷ rest)))
              (with_place o.size c p place place [] t (omega arith) refl))
        | inr n ↦
            let back : sub64 place st.offset ≡ place - st.offset =
              sub64_small place st.offset (ground arith) (omega (arith, t.small)) in
            rw (n, back)
              (with_place o.size c p place c.end_stream
                (record st { read_bytes = place - st.offset } ∷ rest) t t.inside
                (ground arith, ground arith, tiles))
      ])

  unmoved :
      (p place : ℕ) (l : List ParallelStream) (s : S) → place ≡ p → FirstSought p place l s none
  unmoved p place [] s e = refl
  unmoved p place (st ∷ rest) s e = inl e

  seek_first-FirstSought :
      (c : Parallel) (s : S) (p place : ℕ) (l : List ParallelStream)
      → IsTiled o.size p c
      → place < o.size
      → EndsAfter place c.end_stream l
      → FirstSought p place
          (seek_first o (record c { offset = place }) s l).0.streams
          (seek_first o (record c { offset = place }) s l).1
          (seek_first o (record c { offset = place }) s l).2
  unfolding seek_first
  seek_first-FirstSought c s p place [] t less e = refl
  seek_first-FirstSought c s p place (st ∷ rest) t less (before, tiles) =
      let le = Tiles-le (st.offset + st.size) c.end_stream rest tiles in
      let test : lt64 place st.offset ≡ ltb place st.offset =
        lt64_small place st.offset (omega (arith, t.small)) (omega (arith, t.inside, t.small)) in
      let none_left = pop_all o (record c { offset = place }) s (st ∷ rest) in
      rw test (elim (Bool-cases (ltb place st.offset)) [
        | inl y ↦ rw y (
            subst (λ (l : List ParallelStream). FirstSought p place l none_left.1 none)
              (sym (
                ap (λ (x : Parallel). x.streams)
                  (pop_all_lem (record c { offset = place }) s (st ∷ rest))))
              refl)
        | inr n ↦
            let back : sub64 place st.offset ≡ place - st.offset =
              sub64_small place st.offset (ground arith) (omega (arith, t.small)) in
            rw (n, back) (inr (s, st, refl, refl, refl))
      ])

  seek_to-IsSought :
      (c : Parallel) (s : S) (p place : ℕ)
      → IsTiled o.size p c
      → place < o.size
      → IsSought p place (seek_to o c s place)
  unfolding seek_to
  seek_to-IsSought c s p place t less =
      let low : lt64 place 0 ≡ ltb place 0 =
        lt64_small place 0 (omega (arith, t.small)) (omega arith) in
      let high : le64 o.size place ≡ leb o.size place =
        le64_small o.size place (omega (arith, t.small)) (omega (arith, t.small)) in
      let inside : (ltb place 0 || leb o.size place) ≡ false = ground arith in
      let kept = drop_before o place s c.streams in
      let after =
        drop_before-EndsAfter place c.end_stream s c.streams (omega (arith, t.small))
          (omega (arith, t.inside, t.small)) (TilesFrom-Follows p c.end_stream c.streams t.tiles) in
      rw (low, high, inside)
        (elim (Bool-cases (place == c.offset)) [
          | inl y ↦
              let e : p ≡ place = ground (arith, t.at) in
              rw y (subst (λ q. IsTiled o.size q c) e t, unmoved p place c.streams s (sym e))
          | inr n ↦ rw n (
            seek_first-IsTiled c kept.0 p place kept.1 t less after,
            seek_first-FirstSought c kept.0 p place kept.1 t less after,
          )
        ])

  -- For a reader that is open and has tiled streams from its position `p` on, with a positive chunk size and
  -- number of streams, where the object's size and the chunk size have a sum below 2 ^ 63: after a `Seek` from any
  -- whence to a `place` inside of the object, the streams that are left cover the object from `place` to the last
  -- one's end, without a gap or an overlap, and the first of them stands at `place`. If the reader has moved and keeps
  -- a stream, the last effect is that the buffer of the first one was sought to the byte that is read next, and the error is
  -- that of this seek; if it keeps none, there is no error.
  pub seek-IsSought :
      (c : Parallel) (s : S) (p offset place : ℕ) (whence : Whence)
      → IsTiled o.size p c
      → add64 (seek_base o c whence) offset ≡ place
      → place < o.size
      → IsSought p place (seek o c s offset whence)
  unfolding seek
  seek-IsSought c s p offset place whence t target less =
      subst
        (λ b. IsSought p place (
          if b
          then (c, s, some parallel_closed)
          else seek_to o c s (add64 (seek_base o c whence) offset)))
        (sym t.still_open)
        (subst (λ x. IsSought p place (seek_to o c s x)) (sym target)
          (seek_to-IsSought c s p place t less))
