-- ===== src/Caddy/ByteSize/Texts.antt =====
-- White space, digits and products, as `parseBytes` reads them (caddy/module.go).
use mathlib.Core.List.{reverse, reverse-reverse, reverse-cons}
use native.Mathlib.Nat.{div-add-mod', mod-lt, div-le_self, mul-le-mul_right}
use varc.Base.{
  ℕ, suc, ◌+◌, ◌-◌, ◌*◌, ◌/◌, ◌%◌, ◌<◌, ◌≤◌, ◌≡◌, ◌∙◌, sym, ap, refl, arith, inl, inr, true, false,
  some, [], ◌∷◌, ◌++◌, ltb, leb, if◌then◌else◌, lt64, int64_mod, int64_half, Bool-cases,
}
use varc.Base.Int64.{lt64_small}
use varc.HttpSource.{Text}
use varc.HttpSource.Numbers.{AllDigits, AllDigits-append}
use varc.Caddy.ByteSize.{
  is_space, trim_left, trim_space, upper_byte, to_upper, multipliers, split_unit, size, too_large,
  multiplied,
}

pub product_fits : (m n h : ℕ) → 0 < m → n ≤ h / m → n * m ≤ h
product_fits m n h pos le = omega (arith, mul-le-mul_right m le, div-add-mod' h m)

suc_mul : (n m : ℕ) → suc n * m ≡ n * m + m
suc_mul n m = omega arith

product_too_large : (m n h : ℕ) → 0 < m → h / m < n → h < n * m
product_too_large m n h pos lt =
    omega (arith, mul-le-mul_right m lt, div-add-mod' h m, mod-lt h pos, suc_mul (h / m) m)

pub multiplied_lem :
    (m n : ℕ)
    → 0 < m
    → n < int64_half
    → multiplied m (some n) ≡ (if ltb (n * m) int64_half then size (n * m) else too_large)
unfolding multiplied
multiplied_lem m n pos small =
    let positive : lt64 n 0 ≡ false = lt64_small n 0 small (omega arith) ∙ ground arith in
    let limit : lt64 ((int64_half - 1) / m) n ≡ ltb ((int64_half - 1) / m) n =
      lt64_small ((int64_half - 1) / m) n (omega (arith, div-le_self (int64_half - 1) m)) small in
    rw (positive, limit)
      (elim (Bool-cases (ltb ((int64_half - 1) / m) n)) [
        | inl y ↦
            let over = product_too_large m n (int64_half - 1) pos (ground arith) in
            let e : ltb (n * m) int64_half ≡ false = ground arith in rw (y, e) refl
        | inr z ↦
            let fits = product_fits m n (int64_half - 1) pos (ground arith) in
            let e : ltb (n * m) int64_half ≡ true = ground arith in
            let f : n * m % int64_mod ≡ n * m = omega arith in rw (z, e, f) refl
      ])

-- A text that is trimmed at both ends.
pub trim_space_id :
    (t : Text) (c d : ℕ) (s r : Text)
    → t ≡ c ∷ s
    → is_space c ≡ false
    → reverse t ≡ d ∷ r
    → is_space d ≡ false
    → trim_space t ≡ t
unfolding trim_space trim_left
trim_space_id t c d s r e first f last =
    let left : trim_left t ≡ t = ap trim_left e ∙ rw first (sym e) in
    let right : trim_left (reverse t) ≡ reverse t = ap trim_left f ∙ rw last (sym f) in
    ap (λ x. reverse (trim_left (reverse x))) left ∙ ap reverse right ∙ reverse-reverse t

pub trim_left_front : (c : ℕ) (t : Text) → is_space c ≡ false → trim_left (c ∷ t) ≡ c ∷ t
unfolding trim_left
trim_left_front c t e = rw e refl

abbrev pub AllSpaces : Text → Type 0
AllSpaces [] = Unit {0}
AllSpaces (c ∷ t) = (is_space c ≡ true) × AllSpaces t

AllSpaces-append : (s t : Text) → AllSpaces s → AllSpaces t → AllSpaces (s ++ t)
AllSpaces-append [] t a b = b
AllSpaces-append (c ∷ s) t (e, a) b = (e, AllSpaces-append s t a b)

pub AllSpaces-reverse : (t : Text) → AllSpaces t → AllSpaces (reverse t)
AllSpaces-reverse [] a = tt
AllSpaces-reverse (c ∷ t) (e, a) =
    rw (reverse-cons c t) (AllSpaces-append (reverse t) (c ∷ []) (AllSpaces-reverse t a) (e, tt))

pub AllDigits-reverse : (t : Text) → AllDigits t → AllDigits (reverse t)
AllDigits-reverse [] a = tt
AllDigits-reverse (c ∷ t) (l, h, a) =
    rw (reverse-cons c t) (AllDigits-append (reverse t) (c ∷ []) (AllDigits-reverse t a) (l, h, tt))

pub trim_left-append : (gap t : Text) → AllSpaces gap → trim_left (gap ++ t) ≡ trim_left t
unfolding trim_left
trim_left-append [] t a = refl
trim_left-append (c ∷ gap) t (e, a) = rw e (trim_left-append gap t a)

pub digit_no_space : (c : ℕ) → 48 ≤ c → c ≤ 57 → is_space c ≡ false
unfolding is_space
digit_no_space c l h = ground arith

pub to_upper_digits : (t : Text) → AllDigits t → to_upper t ≡ t
unfolding to_upper upper_byte
to_upper_digits [] a = refl
to_upper_digits (c ∷ t) (l, h, a) =
    let e : leb 97 c ≡ false = ground arith in rw e (ap (◌∷◌ c) (to_upper_digits t a))

pub to_upper_spaces : (t : Text) → AllSpaces t → to_upper t ≡ t
unfolding to_upper upper_byte is_space
to_upper_spaces [] a = refl
to_upper_spaces (c ∷ t) (s, a) =
    let e : leb 97 c ≡ false = ground (arith, s) in rw e (ap (◌∷◌ c) (to_upper_spaces t a))

abbrev pub Splits : Text → ℕ → Text → Text × ℕ → Type 0
Splits t x xs (unit, m) =
    reverse t ≡ reverse unit ++ (x ∷ xs)
    → split_unit multipliers t ≡ (trim_space (reverse (x ∷ xs)), m)
