-- ===== src/Ranges/FindAhead.antt =====
-- What `Ranges.Find` promises, and its second half, from `found := rs[i]` on (ranges/ranges.go).
use varc.Base.{
  ℕ, suc, sub64, ◌+◌, ◌-◌, ◌<◌, ◌≤◌, ◌≡◌, refl, ◌∙◌, inl, inr, Bool, true, false, not, ◌||◌, List,
  [], ◌∷◌, ◌++◌, arith, ltb, leb, if◌then◌else◌, length, min, max, length-append,
  get_or-append_length, Bool-cases, ltb→lt,
}
use varc.Base.Int64.{lt64_small, sub64_small}
use varc.Ranges.{Range, no_range, Found, is_empty, find_ahead, end}
use varc.Ranges.Valid.{
  From, Fits, stop, inside, covers, after, intersect_lem, end-stop, covers-append, covers-From,
  is_empty-Fits,
}

-- What `Find` promises of a non-empty range: `curr` starts it, every byte of `curr` is present or
-- none is, `next` is the rest, and the first byte of the rest is of the other kind.
pub record Finds (rs : List Range) (r : Range) (f : Found) : Type 0 where
  pub starts : f.curr.pos ≡ r.pos
  pub nonempty : 0 < f.curr.size
  pub sizes : f.curr.size + f.next.size ≡ r.size
  pub follows : 0 < f.next.size → f.next.pos ≡ stop f.curr
  pub flags : (b : ℕ) → r.pos ≤ b → b < stop f.curr → covers rs b ≡ f.present
  pub turns : 0 < f.next.size → covers rs (stop f.curr) ≡ not f.present

-- No byte from `b` on is in ranges that end by `b`.
pub covers-after :
    (n b : ℕ) (xs : List Range) → From n xs → after n xs ≤ suc b → covers xs b ≡ false
covers-after n b [] v le = refl
covers-after n b (x ∷ xs) v le =
    ground (arith, covers-after (suc (stop x)) b xs v.3 le, le-after (suc (stop x)) xs v.3)
  where
    le-after : (m : ℕ) (l : List Range) → From m l → m ≤ after m l
    le-after m [] u = omega arith
    le-after m (y ∷ l) u = omega (arith, le-after (suc (stop y)) l u.3)

-- The part of `r` from its start to byte `e`.
abbrev pub part : Range → ℕ → Bool → Found
part r e p = record {
  curr = record { pos = r.pos; size = e - r.pos };
  next = record { pos = e; size = stop r - e };
  present = p;
}

-- No part of `r` is present.
abbrev absent : Range → Found
absent r = record { curr = r; next = no_range; present = false }

-- What the code computes for such a part.
abbrev pub taken : Range → ℕ → Bool → Found
taken r e p =
    let curr : Range = record { pos = r.pos; size = e - r.pos } in
    record {
      curr = curr;
      next = record { pos = end curr; size = sub64 r.size curr.size };
      present = p;
    }

pub part_lem :
    (r : Range) (e : ℕ) (p : Bool) → Fits r → r.pos ≤ e → e ≤ stop r → taken r e p ≡ part r e p
part_lem r e p f lo hi =
    ground
      (arith, end-stop (record { pos = r.pos; size = e - r.pos }), sub64_small r.size (e - r.pos))

find_ahead-nil : (lo : List Range) (r : Range) → find_ahead (lo ++ []) (length lo) r ≡ absent r
unfolding find_ahead
find_ahead-nil lo r =
    let e : length (lo ++ []) ≡ length lo = omega (arith, length-append lo []) in
    let t : leb (length (lo ++ [])) (length lo) ≡ true = ground arith in rw t

find_ahead-cons :
    (lo : List Range) (x : Range) (xs : List Range) (r : Range)
    → Fits r
    → Fits x
    → 0 < r.size
    → 0 < x.size
    → r.pos ≤ x.pos
    → find_ahead (lo ++ x ∷ xs) (length lo) r ≡ (
        if ltb x.pos (stop r)
        then (if ltb r.pos x.pos then part r x.pos false else part r (min (stop x) (stop r)) true)
        else absent r)
unfolding find_ahead
find_ahead-cons lo x xs r fr fx pr px le =
    let t : leb (length (lo ++ x ∷ xs)) (length lo) ≡ false =
      ground (arith, length-append lo (x ∷ xs)) in
    let m : max x.pos r.pos ≡ x.pos = omega arith in
    let e : ℕ = min (stop x) (stop r) in
    rw (t, get_or-append_length lo x xs no_range, intersect_lem x r fx fr px pr, m)
      (elim (Bool-cases (ltb x.pos (stop r))) [
        | inl hit ↦
            let c : ltb x.pos e ≡ true = ground arith in
            let full : is_empty (record { pos = x.pos; size = e - x.pos }) ≡ false =
              rw (is_empty-Fits (record { pos = x.pos; size = e - x.pos }) (ground arith))
                (ground arith) in
            let before : sub64 x.pos r.pos ≡ x.pos - r.pos =
              sub64_small x.pos r.pos le (omega arith) in
            rw (hit, c, full, lt64_small r.pos x.pos (omega arith) (omega arith), before)
              (elim (Bool-cases (ltb r.pos x.pos)) [
                | inl gap ↦
                    rw gap (part_lem r x.pos false fr le (omega (arith, ltb→lt x.pos (stop r) hit)))
                | inr at ↦
                    let same : x.pos ≡ r.pos = ground arith in
                    rw (at, same)
                      (part_lem r (min (r.pos + x.size) (stop r)) true fr (omega arith)
                        (omega arith))
              ])
        | inr miss ↦
            let c : ltb x.pos e ≡ false = ground arith in
            rw (miss, c, is_empty-Fits no_range (omega arith))
      ])

-- `found := rs[i]` and on, where nothing before the index reaches into `r`.
pub find_ahead-Finds :
    (lo up : List Range) (r : Range)
    → From 0 lo
    → From r.pos up
    → after 0 lo ≤ suc r.pos
    → Fits r
    → 0 < r.size
    → Finds (lo ++ up) r (find_ahead (lo ++ up) (length lo) r)
find_ahead-Finds lo [] r vl vu done f pos = rw (find_ahead-nil lo r) (record {
  starts = refl;
  nonempty = pos;
  sizes = omega arith;
  follows = λ h. absurd (omega arith);
  flags = λ b le lt. rw (covers-append lo [] b, covers-after 0 b lo vl (omega arith));
  turns = λ h. absurd (omega arith);
})
find_ahead-Finds lo (x ∷ xs) r vl vu done f pos =
    let past : (b : ℕ) → r.pos ≤ b → covers (lo ++ x ∷ xs) b ≡ (inside x b || covers xs b) =
      λ b le. rw (covers-append lo (x ∷ xs) b, covers-after 0 b lo vl (omega arith)) in
    let early : (b : ℕ) → b < x.pos → (inside x b || covers xs b) ≡ false =
      λ b lt. covers-From x.pos b (x ∷ xs) (omega arith, vu.1, vu.2, vu.3) lt in
    rw (find_ahead-cons lo x xs r f vu.2 pos vu.1 vu.0) (elim (Bool-cases (ltb x.pos (stop r))) [
      | inl hit ↦ rw hit (elim (Bool-cases (ltb r.pos x.pos)) [
        | inl gap ↦
            let lt : x.pos < stop r = ltb→lt x.pos (stop r) hit in
            let lt' : r.pos < x.pos = ltb→lt r.pos x.pos gap in
            rw gap (record {
              starts = refl;
              nonempty = omega arith;
              sizes = omega arith;
              follows = λ h. omega arith;
              flags = λ b le b_lt. past b le ∙ early b (omega arith);
              turns = λ h. rw (past (r.pos + (x.pos - r.pos)) (omega arith)) (ground arith);
            })
        | inr at ↦
            let lt : x.pos < stop r = ltb→lt x.pos (stop r) hit in
            let same : r.pos ≡ x.pos = ground arith in
            rw at (record {
              starts = refl;
              nonempty = omega arith;
              sizes = omega arith;
              follows = λ h. omega arith;
              flags = λ b le b_lt. rw (past b le) (ground arith);
              turns = λ h.
                  let e : r.pos + (min (stop x) (stop r) - r.pos) ≡ stop x = omega arith in
                  rw
                    (
                      e,
                      past (stop x) (omega arith),
                      covers-From (suc (stop x)) (stop x) xs vu.3 (omega arith),
                    )
                    (ground arith);
            })
      ])
      | inr miss ↦
          let le' : stop r ≤ x.pos = ground arith in
          rw miss (record {
            starts = refl;
            nonempty = pos;
            sizes = omega arith;
            follows = λ h. absurd (omega arith);
            flags = λ b le b_lt. past b le ∙ early b (omega arith);
            turns = λ h. absurd (omega arith);
          })
    ])
