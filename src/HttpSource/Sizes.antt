-- ===== src/HttpSource/Sizes.antt =====
-- The bounds of what is read from headers, and of the sizes that `Open` reports
-- (source/http/source.go).
use mathlib.Core.Option.{some-injective}
use varc.Base.{
  ℕ, ◌≤◌, ◌<◌, ◌≡◌, refl, ap, subst, arith, Bool, true, false, not, ◌||◌, Option, none, some, [],
  ◌∷◌, ◌==◌, if◌then◌else◌, lt64, le64, sub64, int64_half, int64_mod, ltb, leb,
}
use varc.HttpSource.{
  Text, same_text, Meta, Response, Formats, Stat, found, fallback, fails, parse_int, positive,
  negative, number, in_order, three, parse_parts, parse_after_unit, parse_unit, parse_content_range,
  parse_unsatisfied_size, metadata_from_response, stat_head, stat_unsatisfied, stat_partial,
  stat_range, stat_again, open_source, cut,
}

positive_small : (o : Option ℕ) (n : ℕ) → positive o ≡ some n → n < int64_mod
unfolding positive
positive_small none n e = absurd (cc (e))
positive_small (some k) n e = kept (ltb k int64_half) k n refl e
  where
    kept :
        (b : Bool) (k n : ℕ)
        → ltb k int64_half ≡ b
        → (if b then some k else none) ≡ some n
        → n < int64_mod
    kept true k n h e = let same : k ≡ n = some-injective k n e in ground arith
    kept false k n h e = absurd (cc (e))

negative_small : (o : Option ℕ) (n : ℕ) → negative o ≡ some n → n < int64_mod
unfolding negative sub64
negative_small none n e = absurd (cc (e))
negative_small (some k) n e = kept (leb k int64_half) k n e
  where
    kept : (b : Bool) (k n : ℕ) → (if b then some (sub64 0 k) else none) ≡ some n → n < int64_mod
    kept true k n e = let same : sub64 0 k ≡ n = some-injective (sub64 0 k) n e in omega arith
    kept false k n e = absurd (cc (e))

parse_int_small : (t : Text) (n : ℕ) → parse_int t ≡ some n → n < int64_mod
unfolding parse_int
parse_int_small [] n e = absurd (cc (e))
parse_int_small (c ∷ t) n e = by_sign (c == 45) (c == 43) e
  where
    by_sign :
        (b d : Bool)
        → (if b
            then negative (number t)
            else (if d then positive (number t) else positive (number (c ∷ t))))
          ≡ some n
        → n < int64_mod
    by_sign true d e = negative_small (number t) n e
    by_sign false true e = positive_small (number t) n e
    by_sign false false e = positive_small (number (c ∷ t)) n e

-- A range of an object: not empty, and inside it.
abbrev pub Inside : ℕ × ℕ × ℕ → Type 0
Inside (start, end, size) = (start ≤ end) × (end < size) × (size < int64_half)

Inside-in_order :
    (a b c : ℕ) (r : ℕ × ℕ × ℕ)
    → a < int64_mod
    → b < int64_mod
    → c < int64_mod
    → in_order a b c ≡ some r
    → Inside r
unfolding in_order lt64 le64
Inside-in_order a b c (s, e, z) la lb lc h = checked (lt64 a 0 || lt64 b a || le64 c b) refl h
  where
    checked :
        (k : Bool)
        → lt64 a 0 || lt64 b a || le64 c b ≡ k
        → if◌then◌else◌ {A = Option (ℕ × ℕ × ℕ)} k none (some (a, b, c)) ≡ some (s, e, z)
        → Inside (s, e, z)
    checked true k h = absurd (cc (h))
    checked false k h =
        let same = some-injective (a, b, c) (s, e, z) h in
        let ea : a ≡ s = ap (λ (x : ℕ × ℕ × ℕ). x.0) same in
        let eb : b ≡ e = ap (λ (x : ℕ × ℕ × ℕ). x.1) same in
        let ec : c ≡ z = ap (λ (x : ℕ × ℕ × ℕ). x.2) same in
        let i : (a ≤ b) × (b < c) × (c < int64_half) = (ground arith, ground arith, ground arith) in
        (omega (arith, i.0), omega (arith, i.1), omega (arith, i.2))

three-Inside :
    (o p q : Option ℕ) (r : ℕ × ℕ × ℕ)
    → ((n : ℕ) → o ≡ some n → n < int64_mod)
    → ((n : ℕ) → p ≡ some n → n < int64_mod)
    → ((n : ℕ) → q ≡ some n → n < int64_mod)
    → three o p q ≡ some r
    → Inside r
unfolding three
three-Inside none p q r a b c e = absurd (cc (e))
three-Inside (some x) none q r a b c e = absurd (cc (e))
three-Inside (some x) (some y) none r a b c e = absurd (cc (e))
three-Inside (some x) (some y) (some z) r a b c e =
    Inside-in_order x y z r (a x refl) (b y refl) (c z refl) e

parse_parts-Inside :
    (size : Text) (o : Option (Text × Text)) (r : ℕ × ℕ × ℕ)
    → parse_parts size o ≡ some r
    → Inside r
unfolding parse_parts
parse_parts-Inside size none r e = absurd (cc (e))
parse_parts-Inside size (some (start, end)) r e =
    three-Inside (parse_int start) (parse_int end) (parse_int size) r (parse_int_small start)
      (parse_int_small end) (parse_int_small size) e

parse_after_unit-Inside :
    (o : Option (Text × Text)) (r : ℕ × ℕ × ℕ) → parse_after_unit o ≡ some r → Inside r
unfolding parse_after_unit
parse_after_unit-Inside none r e = absurd (cc (e))
parse_after_unit-Inside (some (range, size)) r e = starred (same_text size (42 ∷ [])) e
  where
    starred : (b : Bool) → (if b then none else parse_parts size (cut 45 range)) ≡ some r → Inside r
    starred true e = absurd (cc (e))
    starred false e = parse_parts-Inside size (cut 45 range) r e

parse_unit-Inside : (o : Option Text) (r : ℕ × ℕ × ℕ) → parse_unit o ≡ some r → Inside r
unfolding parse_unit
parse_unit-Inside none r e = absurd (cc (e))
parse_unit-Inside (some t) r e = parse_after_unit-Inside (cut 47 t) r e

-- Whatever the header says, if a range and a size are read from it, then the range is not empty and lies inside
-- of the object: its first byte is not after its last one, which is before the size, and the size is not negative as an int64.
pub parse_content_range-Inside :
    (value : Text) (r : ℕ × ℕ × ℕ) → parse_content_range value ≡ some r → Inside r
unfolding parse_content_range
parse_content_range-Inside value r e = parse_unit-Inside _ r e

-- A stat that is found has a size that is not negative.
Sized : Stat → Type 0
Sized (found m) = le64 0 m.size ≡ true
Sized fallback = Unit {0}
Sized (fails e) = Unit {0}

module _ (f : Formats) where
  if_Sized :
      (b : Bool) (s t : Stat)
      → (b ≡ true → Sized s)
      → (b ≡ false → Sized t)
      → Sized (if b then s else t)
  if_Sized true s t a b = a refl
  if_Sized false s t a b = b refl

  stat_head-Sized : (answer : Option Response) → Sized (stat_head f answer)
  unfolding stat_head Sized metadata_from_response lt64 le64
  stat_head-Sized none = tt
  stat_head-Sized (some r) =
      if_Sized (r.status == 404) _ _ (λ _. tt)
        (λ _.
          if_Sized ((r.status == 405) || (r.status == 501)) _ _ (λ _. tt)
            (λ _.
              if_Sized (ltb r.status 200 || leb 300 r.status) _ _ (λ _. tt)
                (λ _. if_Sized (lt64 r.content_length 0) _ _ (λ _. tt) (λ h. ground arith))))

  stat_unsatisfied-Sized : (r : Response) (o : Option ℕ) → Sized (stat_unsatisfied f r o)
  unfolding stat_unsatisfied Sized metadata_from_response le64
  stat_unsatisfied-Sized r none = tt
  stat_unsatisfied-Sized r (some size) = if_Sized (size == 0) _ _ (λ _. ground arith) (λ _. tt)

  stat_partial-Sized :
      (r : Response) (o : Option (ℕ × ℕ × ℕ))
      → ((p : ℕ × ℕ × ℕ) → o ≡ some p → Inside p)
      → Sized (stat_partial f r o)
  unfolding stat_partial Sized metadata_from_response le64
  stat_partial-Sized r none h = tt
  stat_partial-Sized r (some (start, end, size)) h =
      let i = h (start, end, size) refl in
      if_Sized (not (start == 0) || not (end == 0) || lt64 size 1) _ _ (λ _. tt)
        (λ _. ground (arith, i.2))

  stat_range-Sized : (answer : Option Response) → Sized (stat_range f answer)
  unfolding stat_range Sized metadata_from_response
  stat_range-Sized none = tt
  stat_range-Sized (some r) =
      if_Sized (r.status == 404) _ _ (λ _. tt)
        (λ _.
          if_Sized (r.status == 416) _ _
            (λ _. stat_unsatisfied-Sized r (parse_unsatisfied_size r.content_range))
            (λ _.
              if_Sized (r.status == 206) _ _
                (λ _.
                  stat_partial-Sized r (parse_content_range r.content_range)
                    (parse_content_range-Inside r.content_range))
                (λ _.
                  if_Sized (r.status == 200) _ _
                    (λ _. if_Sized (le64 0 r.content_length) _ _ (λ h. h) (λ _. tt)) (λ _. tt))))

  stat_again-Sized : (second : Option Response) (s : Stat) → Sized s → Sized (stat_again f second s)
  unfolding stat_again Sized
  stat_again-Sized second (found m) h = h
  stat_again-Sized second fallback h = stat_range-Sized second
  stat_again-Sized second (fails e) h = tt

  -- `Open` never reports an object of unknown or negative size, whatever the origin answers to HEAD
  -- and to the request for the first byte.
  pub open_source-Sized :
      (head second : Option Response) (m : Meta)
      → open_source f head second ≡ found m
      → le64 0 m.size ≡ true
  unfolding open_source Sized
  open_source-Sized head second m e =
      let s : Sized (found m) =
        subst Sized e (stat_again-Sized second (stat_head f head) (stat_head-Sized head)) in
      s
