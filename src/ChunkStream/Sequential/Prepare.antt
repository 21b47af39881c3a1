-- ===== src/ChunkStream/Sequential/Prepare.antt =====
-- Before each part of a `Read` a stream is open and stands before the end of its chunk: the switch of
-- the loop opens the next chunk where one has ended (internal/engine/chunkstream/sequential.go).
use varc.Base.{
  ℕ, ◌+◌, ◌<◌, ◌≤◌, ◌≡◌, subst, ◌⊎◌, inl, inr, refl, arith, true, false, ◌==◌, not, ◌&&◌, add64,
  lt64, minus_one, int64_half, Bool-cases, ltb,
}
use varc.Base.Int64.{add64_small, lt64_small}
use mathlib.Core.Bool.{and-false}
use varc.ChunkStream.{Source}
use varc.ChunkStream.Sequential.{Sequential, doubled, next_chunk, open_range, at_chunk_end, prepare}
use varc.ChunkStream.Sequential.Live.{
  chunk_end, IsChunkSize, IsChunked, Covers, IsSource, Prepared, open_range-Prepared,
}

-- A full chunk lies inside of the object, so that twice its size stays below the bound.
doubled-IsChunkSize :
    (bound n limit : ℕ)
    → 0 < n
    → n + n ≤ bound
    → bound < int64_half
    → IsChunkSize bound limit
    → IsChunkSize bound (doubled n limit)
unfolding doubled
doubled-IsChunkSize bound n limit positive room small (inl e) =
    rw (e, add64_small n n (omega arith))
      (elim (Bool-cases (lt64 minus_one (n + n))) [
        | inl y ↦ rw y (inr (omega arith, room))
        | inr m ↦ rw m (inr (omega arith, room))
      ])
doubled-IsChunkSize bound n limit positive room small (inr (some_limit, most)) =
    rw (add64_small n n (omega arith), lt64_small limit (n + n) (omega arith) (omega arith))
      (elim (Bool-cases (ltb limit (n + n) && not (limit == minus_one))) [
        | inl y ↦ rw y (inr (some_limit, most))
        | inr m ↦ rw m (inr (omega arith, room))
      ])

waiting-not_at_end :
    (bound offset n : ℕ)
    → offset + bound < int64_half
    → IsChunkSize bound n
    → (lt64 0 n && (minus_one == add64 offset n)) ≡ false
unfolding lt64
waiting-not_at_end bound offset n small (inl e) = rw e refl
waiting-not_at_end bound offset n small (inr (positive, most)) =
    let other : (minus_one == add64 offset n) ≡ false =
      rw (add64_small offset n (omega arith)) (ground arith) in
    rw other (and-false (lt64 0 n))

-- At the end of a chunk, the chunk has a size.
at_end :
    (bound offset n p : ℕ)
    → offset + bound < int64_half
    → IsChunkSize bound n
    → (lt64 0 n && (p == add64 offset n)) ≡ true
    → (0 < n) × (p ≡ offset + n)
unfolding lt64
at_end bound offset n p small (inl e) h =
    absurd (let f = subst (λ m. (lt64 0 m && (p == add64 offset m)) ≡ true) e h in cc)
at_end bound offset n p small (inr (positive, most)) h =
    (positive, ground (arith, h, add64_small offset n (omega arith)))

not_at_end :
    (bound offset n p : ℕ)
    → offset + bound < int64_half
    → IsChunkSize bound n
    → (lt64 0 n && (p == add64 offset n)) ≡ false
    → lt64 0 n ≡ true
    → p ≤ offset + n
    → p < offset + n
unfolding lt64
not_at_end bound offset n p small (inl e) h some_size le =
    absurd (let f = subst (λ m. lt64 0 m ≡ true) e some_size in cc)
not_at_end bound offset n p small (inr (positive, most)) h some_size le =
    ground (arith, h, some_size, add64_small offset n (omega arith))

module _ {S : Type 0} (origin : ℕ → ℕ) (size bound : ℕ) (pos stop : S → ℕ) where
  -- No stream is open at the begin of the chunk.
  pub record IsWaiting (p : ℕ) (c : Sequential) : Type 0 where
    pub chunked : IsChunked bound c
    pub at : c.offset ≡ minus_one
    pub in_chunk : c.chunk_offset ≡ p
    pub in_size : p ≤ size

  -- The stream stands in the chunk or at its end.
  pub record IsReading (p : ℕ) (c : Sequential) (s : S) : Type 0 where
    pub chunked : IsChunked bound c
    pub has_stream : c.opened ≡ true
    pub at : c.offset ≡ p
    pub covers : Covers origin size bound pos stop p (chunk_end size c.chunk_offset c.chunk_size) s
    pub in_chunk : c.chunk_offset ≤ p
    pub in_size : p ≤ size
    pub not_after : lt64 0 c.chunk_size ≡ true → p ≤ c.chunk_offset + c.chunk_size

  -- The reader's position is `p`.
  abbrev pub IsLive : ℕ → Sequential → S → Type 0
  IsLive p c s = IsWaiting p c ⊎ IsReading p c s

  module _ (o : Source S) (source : IsSource origin size bound pos stop o)
      (fits : size + bound < int64_half) (room : size + size ≤ bound) where
    next_chunk-IsChunked :
        (c : Sequential)
        → IsChunked bound c
        → 0 < c.chunk_size
        → c.chunk_size ≤ size
        → IsChunked bound (next_chunk c)
    unfolding next_chunk
    next_chunk-IsChunked c chunked positive inside = elim (Bool-cases c.custom_chunk_size) [
      | inl y ↦ simp y (record {
        still_open = chunked.still_open;
        sized = chunked.initially;
        initially = chunked.initially;
        at_most = chunked.at_most;
      })
      | inr n ↦ simp n (record {
        still_open = chunked.still_open;
        sized =
            doubled-IsChunkSize bound c.chunk_size c.max_chunk_size positive (omega arith)
              (omega arith) chunked.at_most;
        initially = chunked.initially;
        at_most = chunked.at_most;
      })
    ]

    prepare-Waiting :
        (c : Sequential) (s : S) (p : ℕ)
        → IsWaiting p c
        → Prepared origin size bound pos stop p (prepare o c s)
    unfolding prepare at_chunk_end
    prepare-Waiting c s p w =
        let e : (lt64 0 c.chunk_size && (minus_one == add64 c.chunk_offset c.chunk_size)) ≡ false =
          waiting-not_at_end bound c.chunk_offset c.chunk_size (omega arith) w.chunked.sized in
        simp (w.at, e)
          (subst (λ q. Prepared origin size bound pos stop q (open_range o c s)) w.in_chunk
            (open_range-Prepared origin size bound pos stop o source fits c s w.chunked
              (omega arith)))

    prepare-Reading :
        (c : Sequential) (s : S) (p : ℕ)
        → IsReading p c s
        → Prepared origin size bound pos stop p (prepare o c s)
    unfolding prepare at_chunk_end next_chunk
    prepare-Reading c s p r =
        elim (Bool-cases (lt64 0 c.chunk_size && (c.offset == add64 c.chunk_offset c.chunk_size))) [
          | inl y ↦
              let f =
                at_end bound c.chunk_offset c.chunk_size c.offset (omega arith) r.chunked.sized y in
              let chunked = next_chunk-IsChunked c r.chunked f.0 (omega arith) in
              simp y (
                subst (λ q. Prepared origin size bound pos stop q (open_range o (next_chunk c) s))
                  r.at
                  (open_range-Prepared origin size bound pos stop o source fits (next_chunk c) s
                    chunked (omega arith)))
          | inr n ↦
              let e : (c.offset == minus_one) ≡ false = ground arith in
              simp (n, e)
                (record {
                  ready = λ _. record {
                    chunked = r.chunked;
                    has_stream = r.has_stream;
                    at = r.at;
                    covers = r.covers;
                    in_chunk = r.in_chunk;
                    in_size = r.in_size;
                    before = λ h.
                        not_at_end bound c.chunk_offset c.chunk_size p (omega arith) r.chunked.sized
                          (subst
                            (λ q.
                              (lt64 0 c.chunk_size && (q == add64 c.chunk_offset c.chunk_size))
                              ≡ false)
                            r.at n)
                          h (r.not_after h);
                  };
                  no_end = λ h. cc;
                })
        ]

    pub prepare-Prepared :
        (c : Sequential) (s : S) (p : ℕ)
        → IsLive p c s
        → Prepared origin size bound pos stop p (prepare o c s)
    prepare-Prepared c s p (inl w) = prepare-Waiting c s p w
    prepare-Prepared c s p (inr r) = prepare-Reading c s p r
