-- ===== src/Ranges/Queries.antt =====
-- `Ranges.Present` and `Ranges.FindMissing` against the bytes that a well-formed set covers
-- (ranges/ranges.go).
use varc.Base.{
  ℕ, ◌<◌, ◌≤◌, ◌≡◌, ◌∙◌, refl, ◌↔◌, inl, inr, true, false, List, arith, leb, if◌then◌else◌, sub64,
  Bool-cases,
}
use varc.Base.Int64.{sub64_small}
use varc.Ranges.{Range, Found, is_empty, find, present, find_missing, end}
use varc.Ranges.Valid.{IsValid, Fits, stop, inside, covers, is_empty-Fits, is_empty_small, end-stop}
use varc.Ranges.FindAhead.{Finds}
use varc.Ranges.Find.{find-Finds}

-- Every byte of `r` is in the set.
abbrev pub AllPresent : List Range → Range → Type 0
AllPresent rs r = (b : ℕ) → inside r b ≡ true → covers rs b ≡ true

present_nonempty :
    (rs : List Range) (r : Range) (f : Found)
    → Fits r
    → 0 < r.size
    → Finds rs r f
    → ((if f.present then is_empty f.next else false) ≡ true) ↔ AllPresent rs r
present_nonempty rs r f fits pos F =
    let small : is_empty f.next ≡ leb f.next.size 0 =
      is_empty_small f.next (omega (arith, F.sizes, fits)) in
    (
      λ e b in_r.
          let some_in : f.present ≡ true = ground arith in
          let no_rest : f.next.size ≡ 0 = ground arith in ground (arith, F.flags b),
      λ all.
          let first : covers rs r.pos ≡ f.present =
            F.flags r.pos (omega arith) (omega (arith, F.starts, F.nonempty)) in
          ground (arith, all r.pos, all (stop f.curr), F.turns),
    )

-- On a well-formed set, `Present` of a range whose end does not overflow answers true exactly when
-- the set covers every byte of the range.
pub present_iff :
    (rs : List Range) (r : Range) → IsValid rs → Fits r → (present rs r ≡ true) ↔ AllPresent rs r
unfolding present
present_iff rs r v f = elim (Bool-cases (is_empty r)) [
  | inl e ↦
      let none_in : leb r.size 0 ≡ true = rw (← is_empty-Fits r f) e in
      rw e (λ _ b in_r. ground arith, λ _. refl)
  | inr e ↦
      let some_in : leb r.size 0 ≡ false = rw (← is_empty-Fits r f) e in
      let pos : 0 < r.size = ground arith in
      rw e (present_nonempty rs r (find rs r) f pos (find-Finds rs r v f pos))
]

-- What `FindMissing` promises: the same end, only present bytes left out, and an absent byte first
-- unless nothing is left.
pub record Misses (rs : List Range) (r out : Range) : Type 0 where
  pub same_end : stop out ≡ stop r
  pub later : r.pos ≤ out.pos
  pub skipped : (b : ℕ) → r.pos ≤ b → b < out.pos → covers rs b ≡ true
  pub missing : 0 < out.size → covers rs out.pos ≡ false

missing_nonempty :
    (rs : List Range) (r : Range) (f : Found)
    → Fits r
    → 0 < r.size
    → Finds rs r f
    → Misses rs r (
        if f.present
        then record { pos = end f.curr; size = sub64 r.size (sub64 (end f.curr) r.pos) }
        else r)
missing_nonempty rs r f fits pos F = elim (Bool-cases f.present) [
  | inl e ↦
      let stops : end f.curr ≡ stop f.curr = end-stop f.curr (omega (arith, F.starts, F.sizes)) in
      let step : sub64 (stop f.curr) r.pos ≡ f.curr.size =
        sub64_small (stop f.curr) r.pos (omega (arith, F.starts)) (omega (arith, F.starts, F.sizes))
        ∙ omega (arith, F.starts) in
      let left : sub64 r.size f.curr.size ≡ f.next.size =
        sub64_small r.size f.curr.size (omega (arith, F.sizes)) (omega arith)
        ∙ omega (arith, F.sizes) in
      rw (e, stops, step, left)
        (record {
          same_end = omega (arith, F.starts, F.sizes);
          later = omega (arith, F.starts);
          skipped = λ b le lt. rw (F.flags b le lt) e;
          missing = λ h. rw (F.turns h, e);
        })
  | inr e ↦ rw e (record {
    same_end = refl;
    later = omega arith;
    skipped = λ b le lt. absurd (omega arith);
    missing = λ h. rw (← F.starts) (ground (arith, F.flags r.pos));
  })
]

-- On a well-formed set, `FindMissing` of a range whose end does not overflow keeps the end of the
-- range and moves its start over present bytes only, until it stands at an absent byte or nothing
-- is left.
pub find_missing-Misses :
    (rs : List Range) (r : Range) → IsValid rs → Fits r → Misses rs r (find_missing rs r)
unfolding find_missing
find_missing-Misses rs r v f = elim (Bool-cases (is_empty r)) [
  | inl e ↦
      let none_in : leb r.size 0 ≡ true = rw (← is_empty-Fits r f) e in
      rw e (record {
        same_end = refl;
        later = omega arith;
        skipped = λ b le lt. absurd (omega arith);
        missing = λ h. ground arith;
      })
  | inr e ↦
      let some_in : leb r.size 0 ≡ false = rw (← is_empty-Fits r f) e in
      let pos : 0 < r.size = ground arith in
      rw e (missing_nonempty rs r (find rs r) f pos (find-Finds rs r v f pos))
]
