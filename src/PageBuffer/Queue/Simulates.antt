-- ===== src/PageBuffer/Queue/Simulates.antt =====
-- `RW` does what the queue does, call by call (bufferpool/reader_writer.go).
use varc.Base.{
  ℕ, ◌+◌, ◌≤◌, ◌<◌, ◌≡◌, ◌∙◌, inl, inr, refl, sym, ap, subst, arith, true, false, Option, none,
  some, List, [], ◌∷◌, ◌++◌, length, take, drop, ltb, if◌then◌else◌, add64, sub64, lt64, int64_half,
  length-append, length-take-min, take_all, Bool-cases,
}
use varc.PageBuffer.{
  Rw, eof, read, write, Whence, from_start, from_current, from_end, from_elsewhere, seek_base,
  seek_to, seek, seek_past_end, new_rw,
}
use varc.PageBuffer.Bytes.{IsPages, contents, concat}
use varc.PageBuffer.Reads.{read-Reads}
use varc.PageBuffer.Writes.{write-Writes, write_quiet}
use varc.PageBuffer.Queue.{
  RwCall, writes, reads, seeks, RwAnswer, at_position, rw_step, rw_run, ByteQueue, position,
  queue_seek, queue_step, queue_run, written,
}

-- A position that is neither negative nor past the end.
target_inside :
    (size base offset : ℕ)
    → size < int64_half
    → lt64 (add64 base offset) 0 ≡ false
    → lt64 size (add64 base offset) ≡ false
    → add64 base offset ≤ size
unfolding lt64 add64
target_inside size base offset small positive within = ground arith

module _ (n : ℕ) (gives : ℕ → List ℕ) (sizes : (i : ℕ) → length (gives i) ≡ n) where
  record Refines (b : Rw) (q : ByteQueue) : Type 0 where
    pages : IsPages b
    bytes : contents b ≡ q.data_
    count : b.size ≡ length q.data_
    at : b.out ≡ q.at
    unclosed : b.closed ≡ false
    paged : b.buffer_size ≡ n

  -- Both give the same answer, and go on alike.
  Alike : Rw × RwAnswer → ByteQueue × RwAnswer → Type 0
  Alike (b, x) (q, y) = Refines b q × (x ≡ y)

  size_lem : (b : Rw) → IsPages b → b.size ≡ length (contents b)
  size_lem b v = elim v.fits [
    | inl (nil, z, l) ↦ omega (arith, length-take-min b.size (concat b.pages))
    | inr e ↦ omega (arith, length-take-min b.size (concat b.pages), v.last_fits)
  ]

  write-Alike :
      (b : Rw) (q : ByteQueue) (p : List ℕ)
      → Refines b q
      → Alike (rw_step gives b (writes p)) (queue_step q (writes p))
  unfolding rw_step Alike
  write-Alike b q p h =
      let r = write {O = Unit {0}} none gives b tt p in
      let w = write-Writes none gives b tt p h.pages h.unclosed (λ i. sizes i ∙ sym h.paged) in
      let quiet = write_quiet gives b tt p h.unclosed in
      let whole : r.n ≡ length p = w.whole quiet in
      let data_ : contents r.rw ≡ q.data_ ++ p =
        w.appends.1
        ∙ ap (λ k. contents b ++ take k p) whole
        ∙ ap (λ xs. contents b ++ xs) (take_all (length p) p (omega arith))
        ∙ ap (λ xs. xs ++ p) h.bytes in
      (
        record {
          pages = w.appends.0;
          bytes = data_;
          count = size_lem r.rw w.appends.0 ∙ ap length data_;
          at = w.appends.2 ∙ h.at;
          unclosed = w.appends.4 ∙ h.unclosed;
          paged = w.appends.3 ∙ h.paged;
        },
        cc (whole, quiet),
      )

  read-Alike :
      (b : Rw) (q : ByteQueue) (len : ℕ)
      → Refines b q
      → Alike (rw_step gives b (reads len)) (queue_step q (reads len))
  unfolding rw_step Alike
  read-Alike b q len h =
      let r = read b len in
      let rd = read-Reads b len h.pages h.unclosed in
      let same : r.bytes ≡ take len (drop q.at q.data_) =
        rd.bytes
        ∙ ap (λ i. take len (drop i (contents b))) h.at
        ∙ ap (λ xs. take len (drop q.at xs)) h.bytes in
      let moved : Refines (record b { out = b.out + length r.bytes })
          (record q { at = q.at + length (take len (drop q.at q.data_)) }) =
        record {
          pages = record {
            positive = h.pages.positive;
            sized = h.pages.sized;
            spare = h.pages.spare;
            fits = h.pages.fits;
            last_fits = h.pages.last_fits;
            inside = rd.inside;
          };
          bytes = h.bytes;
          count = h.count;
          at = omega (arith, h.at, ap length same);
          unclosed = h.unclosed;
          paged = h.paged;
        } in
      let err : r.err
          ≡ (if ltb (length (take len (drop q.at q.data_))) len then some eof else none) =
        elim rd.err [
          | inl (e, l) ↦
              let full : ltb (length (take len (drop q.at q.data_))) len ≡ false =
                ground (arith, ap length same) in
              e ∙ rw full refl
          | inr (e, l) ↦
              let short : ltb (length (take len (drop q.at q.data_))) len ≡ true =
                ground (arith, ap length same) in
              e ∙ rw short refl
        ] in
      (
        subst (λ c. Refines c (record q { at = q.at + length (take len (drop q.at q.data_)) }))
            (sym rd.state) moved,
        cc (same, err),
      )

  -- `Seek` to a position by its sign and the size.
  moved-Alike :
      (b : Rw) (q : ByteQueue) (offset base : ℕ)
      → Refines b q
      → length q.data_ < int64_half
      → Alike
          (let (b', p, err) = seek_to b offset (some base) in (b', at_position p err))
          (queue_seek q offset (some base))
  unfolding Alike seek_to
  moved-Alike b q offset base h small =
      let t = add64 base offset in
      elim (Bool-cases (lt64 t 0)) [
        | inl e ↦ rw e (h, refl)
        | inr e ↦ rw e (elim (Bool-cases (lt64 (length q.data_) t)) [
          | inl past ↦
              let past' : lt64 b.size t ≡ true = ap (λ s. lt64 s t) h.count ∙ past in
              rw past (
                rw past' (
                  h,
                  ap (λ s. at_position (sub64 offset (sub64 t s)) (some seek_past_end)) h.count,
                ))
          | inr within ↦
              let within' : lt64 b.size t ≡ false = ap (λ s. lt64 s t) h.count ∙ within in
              rw within (
                rw within' (
                  record {
                    pages = record {
                      positive = h.pages.positive;
                      sized = h.pages.sized;
                      spare = h.pages.spare;
                      fits = h.pages.fits;
                      last_fits = h.pages.last_fits;
                      inside = target_inside b.size base offset (omega (arith, h.count)) e within';
                    };
                    bytes = h.bytes;
                    count = h.count;
                    at = refl;
                    unclosed = h.unclosed;
                    paged = h.paged;
                  },
                  refl,
                ))
        ])
      ]

  seek_to-Alike :
      (b : Rw) (q : ByteQueue) (offset : ℕ) (base : Option ℕ)
      → Refines b q
      → length q.data_ < int64_half
      → Alike
          (let (b', p, err) = seek_to b offset base in (b', at_position p err))
          (queue_seek q offset base)
  unfolding Alike seek_to
  seek_to-Alike b q offset none h small = (h, refl)
  seek_to-Alike b q offset (some x) h small = moved-Alike b q offset x h small

  same_base :
      (b : Rw) (q : ByteQueue) (whence : Whence)
      → Refines b q
      → seek_base b whence ≡ position q whence
  unfolding seek_base
  same_base b q from_start h = refl
  same_base b q from_current h = ap some h.at
  same_base b q from_end h = ap some h.count
  same_base b q from_elsewhere h = refl

  seek-Alike :
      (b : Rw) (q : ByteQueue) (offset : ℕ) (whence : Whence)
      → Refines b q
      → length q.data_ < int64_half
      → Alike (rw_step gives b (seeks offset whence)) (queue_step q (seeks offset whence))
  unfolding rw_step Alike seek
  seek-Alike b q offset whence h small =
      subst
        (λ x.
          Alike (let (b', p, err) = seek b offset whence in (b', at_position p err))
            (queue_seek q offset x))
        (same_base b q whence h) (seek_to-Alike b q offset (seek_base b whence) h small)

  step-Alike :
      (b : Rw) (q : ByteQueue) (c : RwCall)
      → Refines b q
      → length q.data_ < int64_half
      → Alike (rw_step gives b c) (queue_step q c)
  step-Alike b q (writes p) h small = write-Alike b q p h
  step-Alike b q (reads len) h small = read-Alike b q len h
  step-Alike b q (seeks offset whence) h small = seek-Alike b q offset whence h small

  sought_data :
      (q : ByteQueue) (offset : ℕ) (base : Option ℕ) → (queue_seek q offset base).0.data_ ≡ q.data_
  sought_data q offset none = refl
  sought_data q offset (some base) = elim (Bool-cases (lt64 (add64 base offset) 0)) [
    | inl e ↦ rw e refl
    | inr e ↦ rw e (elim (Bool-cases (lt64 (length q.data_) (add64 base offset))) [
      | inl k ↦ rw k refl
      | inr k ↦ rw k refl
    ])
  ]

  -- What a call leaves written, and what is still to be written.
  grown :
      (q : ByteQueue) (c : RwCall) (cs : List RwCall)
      → length (queue_step q c).0.data_ + written cs ≡ length q.data_ + written (c ∷ cs)
  grown q (writes p) cs = omega (arith, length-append q.data_ p)
  grown q (reads len) cs = refl
  grown q (seeks offset whence) cs =
      ap (λ xs. length xs + written cs) (sought_data q offset (position q whence))

  run-Refines :
      (cs : List RwCall) (b : Rw) (q : ByteQueue)
      → Refines b q
      → length q.data_ + written cs < int64_half
      → rw_run gives b cs ≡ queue_run q cs
  unfolding rw_run Alike
  run-Refines [] b q h small = refl
  run-Refines (c ∷ cs) b q h small =
      let now = step-Alike b q c h (omega (arith, grown q c cs)) in
      let rest =
        run-Refines cs (rw_step gives b c).0 (queue_step q c).0 now.0
          (omega (arith, grown q c cs)) in
      cc (now.1, rest)

  -- Take a new RW on a pool that gives buffers of a positive size n, and any sequence of Write, Read and
  -- Seek, with less than 2 ^ 63 bytes written in all. Then each call returns what it returns on a queue
  -- of bytes with a read position: how many bytes were written, the bytes read, the position, and
  -- each error.
  pub rw_run-refines :
      (cs : List RwCall)
      → 0 < n
      → written cs < int64_half
      → rw_run gives (new_rw n) cs ≡ queue_run (record { data_ = []; at = 0 }) cs
  unfolding new_rw
  rw_run-refines cs positive small =
      run-Refines cs (new_rw n) (record { data_ = []; at = 0 })
        (record {
          pages = record {
            positive = positive;
            sized = tt;
            spare = tt;
            fits = inl (refl, refl, refl);
            last_fits = omega arith;
            inside = omega arith;
          };
          bytes = refl;
          count = refl;
          at = refl;
          unclosed = refl;
          paged = refl;
        })
        (omega arith)
