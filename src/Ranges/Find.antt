-- ===== src/Ranges/Find.antt =====
-- `Ranges.Find` on a well-formed set: the longest part at the front of `r` that is wholly present or
-- wholly absent (ranges/ranges.go).
use mathlib.Core.List.{append_assoc}
use varc.Base.{
  ℕ, suc, ◌+◌, ◌-◌, ◌<◌, ◌≤◌, ◌≡◌, refl, subst, inl, inr, true, false, List, [], ◌∷◌, ◌++◌, arith,
  ltb, if◌then◌else◌, length, get_or, min, max, get_or-append_length, Bool-cases, ltb→lt,
  last-cases,
}
use varc.Ranges.{Range, no_range, is_empty, find_ahead, find_at, find, search_pos}
use varc.Ranges.Valid.{
  From, IsValid, Fits, stop, after, intersect_lem, append-From, after-append, covers-append,
  covers-From, is_empty-Fits,
}
use varc.Ranges.Search.{lower, upper, lower-append-upper, search_pos-lower}
use varc.Ranges.Absorb.{length-snoc}
use varc.Ranges.FindAhead.{Finds, covers-after, part, part_lem, find_ahead-Finds}
use varc.Ranges.Insert.{Starts, Starts-lower, Starts-last, upper-From}

-- With a range `p` before the index.
find_at_previous :
    (init up : List Range) (p r : Range)
    → Fits r
    → Fits p
    → 0 < r.size
    → 0 < p.size
    → p.pos < r.pos
    → find_at ((init ++ p ∷ []) ++ up) (suc (length init)) r ≡ (
        if ltb r.pos (stop p)
        then part r (min (stop p) (stop r)) true
        else find_ahead ((init ++ p ∷ []) ++ up) (suc (length init)) r)
unfolding find_at
find_at_previous init up p r fr fp pr pp lt =
    let at_p : get_or ((init ++ p ∷ []) ++ up) (length init) no_range ≡ p =
      rw (append_assoc init (p ∷ []) up) (get_or-append_length init p up no_range) in
    let m : max p.pos r.pos ≡ r.pos = omega arith in
    let e : ℕ = min (stop p) (stop r) in
    rw (at_p, intersect_lem p r fp fr pp pr, m)
      (elim (Bool-cases (ltb r.pos (stop p))) [
        | inl hit ↦
            let reaches : r.pos < stop p = ltb→lt r.pos (stop p) hit in
            let c : ltb r.pos e ≡ true = ground arith in
            let full : is_empty (record { pos = r.pos; size = e - r.pos }) ≡ false =
              rw (is_empty-Fits (record { pos = r.pos; size = e - r.pos }) (omega arith))
                (ground arith) in
            rw (hit, c, full) (part_lem r e true fr (omega arith) (omega arith))
        | inr miss ↦
            let c : ltb r.pos e ≡ false = ground arith in
            rw (miss, c, is_empty-Fits no_range (omega arith))
      ])

find_previous-Finds :
    (init up : List Range) (p r : Range)
    → From 0 (init ++ p ∷ [])
    → From (after 0 (init ++ p ∷ [])) up
    → From r.pos up
    → p.pos < r.pos
    → Fits r
    → 0 < r.size
    → Finds ((init ++ p ∷ []) ++ up) r (find_at ((init ++ p ∷ []) ++ up) (suc (length init)) r)
find_previous-Finds init up p r vl va vu lt f pos =
    let (vi, vp) = append-From 0 init (p ∷ []) vl in
    let aft : after 0 (init ++ p ∷ []) ≡ suc (stop p) = after-append 0 init (p ∷ []) in
    rw (find_at_previous init up p r f vp.2 pos vp.1 lt) (elim (Bool-cases (ltb r.pos (stop p))) [
      | inl hit ↦
          let reaches : r.pos < stop p = ltb→lt r.pos (stop p) hit in
          rw hit (record {
            starts = refl;
            nonempty = omega arith;
            sizes = omega arith;
            follows = λ h. omega arith;
            flags = λ b le b_lt.
                rw (covers-append (init ++ p ∷ []) up b, covers-append init (p ∷ []) b)
                  (ground arith);
            turns = λ h.
                let e : r.pos + (min (stop p) (stop r) - r.pos) ≡ stop p = omega arith in
                rw (
                  e,
                  covers-append (init ++ p ∷ []) up (stop p),
                  covers-after 0 (stop p) (init ++ p ∷ []) vl (omega arith),
                  covers-From (suc (stop p)) (stop p) up (subst (λ n. From n up) aft va)
                      (omega arith),
                );
          })
      | inr miss ↦
          let le : stop p ≤ r.pos = ground arith in
          rw (miss, ← length-snoc init p)
            (find_ahead-Finds (init ++ p ∷ []) up r vl vu (omega arith) f pos)
    ])

find-eq-find_at :
    (rs : List Range) (r : Range) → is_empty r ≡ false → find rs r ≡ find_at rs (search_pos rs r) r
unfolding find
find-eq-find_at rs r e = rw e

find_at-Finds :
    (lo up : List Range) (r : Range)
    → From 0 lo
    → From (after 0 lo) up
    → From r.pos up
    → Starts r.pos lo
    → Fits r
    → 0 < r.size
    → Finds (lo ++ up) r (find_at (lo ++ up) (length lo) r)
unfolding find_at
find_at-Finds lo up r vl va vu st f pos = elim (last-cases lo) [
  | inl e ↦ rw e (find_ahead-Finds [] up r tt vu (omega arith) f pos)
  | inr (init, p, e) ↦
      rw (e, length-snoc init p)
        (find_previous-Finds init up p r (subst (From 0) e vl)
          (subst (λ l. From (after 0 l) up) e va) vu
          (Starts-last r.pos init p (subst (Starts r.pos) e st)) f pos)
]

-- `Find` of a non-empty range whose end does not overflow, in a well-formed set, returns as `curr` a non-empty part at the front
-- of the range all of whose bytes are present, or none, as `present` says; `next` is exactly the
-- rest, and the first byte of the rest is of the other kind, so that `curr` is as long as it can be.
pub find-Finds :
    (rs : List Range) (r : Range) → IsValid rs → Fits r → 0 < r.size → Finds rs r (find rs r)
find-Finds rs r v f pos =
    let lo = lower r.pos rs in
    let up = upper r.pos rs in
    let split : lo ++ up ≡ rs = lower-append-upper r.pos rs in
    let (vl, va) = append-From 0 lo up (rw split v) in
    let full : is_empty r ≡ false = rw (is_empty-Fits r f) (ground arith) in
    rw (find-eq-find_at rs r full, search_pos-lower rs r v (omega arith))
      (subst (λ l. Finds l r (find_at l (length lo) r)) split
        (find_at-Finds lo up r vl va (upper-From r.pos 0 rs v) (Starts-lower r.pos rs) f pos))
