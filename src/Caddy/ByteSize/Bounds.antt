-- ===== src/Caddy/ByteSize/Bounds.antt =====
-- No text is read as a size that wraps around (caddy/module.go).
use native.Mathlib.Nat.{div-le_self}
use varc.Base.{
  ℕ, ◌-◌, ◌*◌, ◌/◌, ◌%◌, ◌<◌, ◌≡◌, refl, arith, inl, inr, false, Option, none, some, [], ◌∷◌, ltb,
  leb, ◌==◌, lt64, sub64, int64_mod, int64_half, Bool-cases,
}
use varc.Base.Int64.{lt64_small}
use varc.HttpSource.{Text, number, positive, negative, parse_int}
use varc.Caddy.ByteSize.{
  trim_space, to_upper, cut_suffix, multipliers, taken_unit, split_unit, size, multiplied,
  parse_value, parse_bytes,
}
use varc.Caddy.ByteSize.Texts.{product_fits}

positive_small : (o : Option ℕ) (n : ℕ) → positive o ≡ some n → n < int64_half
unfolding positive
positive_small none n e = cc
positive_small (some k) n e = elim (Bool-cases (ltb k int64_half)) [
  | inl y ↦ let f = rw y at e in ground (arith, f, y)
  | inr m ↦ let f = rw m at e in cc
]

negative_small : (o : Option ℕ) (n : ℕ) → negative o ≡ some n → n < int64_mod
unfolding negative sub64
negative_small none n e = cc
negative_small (some k) n e = elim (Bool-cases (leb k int64_half)) [
  | inl y ↦ let f = rw y at e in ground (arith, f, y)
  | inr m ↦ let f = rw m at e in cc
]

pub parse_int_small : (t : Text) (n : ℕ) → parse_int t ≡ some n → n < int64_mod
unfolding parse_int
parse_int_small [] n e = cc
parse_int_small (c ∷ t) n e = elim (Bool-cases (c == 45)) [
  | inl y ↦ let f = rw y at e in negative_small (number t) n f
  | inr m ↦ elim (Bool-cases (c == 43)) [
    | inl y ↦ let f = rw (m, y) at e in omega (arith, positive_small (number t) n f)
    | inr z ↦ let f = rw (m, z) at e in omega (arith, positive_small (number (c ∷ t)) n f)
  ]
]

taken_unit_positive :
    (m : ℕ) (o : Option Text) (q : Text × ℕ) → 0 < m → 0 < q.1 → 0 < (taken_unit m o q).1
unfolding taken_unit
taken_unit_positive m none q a b = b
taken_unit_positive m (some t) q a b = a

split_unit_positive : (t : Text) → 0 < (split_unit multipliers t).1
unfolding split_unit
split_unit_positive t = taken_unit_positive _ (cut_suffix _ t) _ (omega arith) (
    taken_unit_positive _ (cut_suffix _ t) _ (omega arith) (
      taken_unit_positive _ (cut_suffix _ t) _ (omega arith) (
        taken_unit_positive _ (cut_suffix _ t) _ (omega arith) (
          taken_unit_positive _ (cut_suffix _ t) _ (omega arith) (
            taken_unit_positive _ (cut_suffix _ t) _ (omega arith) (
              taken_unit_positive _ (cut_suffix _ t) _ (omega arith) (
                taken_unit_positive _ (cut_suffix _ t) _ (omega arith)
                  (taken_unit_positive _ (cut_suffix _ t) _ (omega arith) (omega arith)))))))))

size_injective : (a b : ℕ) → size a ≡ size b → a ≡ b
size_injective a b e = cc

pub not_negative_small : (n : ℕ) → n < int64_mod → lt64 n 0 ≡ false → n < int64_half
unfolding lt64
not_negative_small n small e = ground (arith, e)

multiplied_small :
    (m k : ℕ) (o : Option ℕ)
    → 0 < m
    → ((n : ℕ) → o ≡ some n → n < int64_mod)
    → multiplied m o ≡ size k
    → k < int64_half
unfolding multiplied
multiplied_small m k none pos small e = cc
multiplied_small m k (some n) pos small e = elim (Bool-cases (lt64 n 0)) [
  | inl y ↦ let f = rw y at e in cc
  | inr z ↦
      let less = not_negative_small n (small n refl) z in
      let limit : lt64 ((int64_half - 1) / m) n ≡ ltb ((int64_half - 1) / m) n =
        lt64_small ((int64_half - 1) / m) n (omega (arith, div-le_self (int64_half - 1) m)) less in
      elim (Bool-cases (ltb ((int64_half - 1) / m) n)) [
        | inl y ↦ let f = rw (z, limit, y) at e in cc
        | inr w ↦
            let fits = product_fits m n (int64_half - 1) pos (ground arith) in
            let f : size (n * m % int64_mod) ≡ size k = rw (z, limit, w) at e in
            omega (arith, size_injective (n * m % int64_mod) k f)
      ]
]

parse_value_small : (t : Text) (n : ℕ) → parse_value t ≡ size n → n < int64_half
unfolding parse_value
parse_value_small [] n e = cc
parse_value_small (c ∷ t) n e =
    multiplied_small (split_unit multipliers (to_upper (c ∷ t))).1 n
      (parse_int (split_unit multipliers (to_upper (c ∷ t))).0)
      (split_unit_positive (to_upper (c ∷ t)))
      (λ k f. parse_int_small (split_unit multipliers (to_upper (c ∷ t))).0 k f) e

-- Whatever text is read as a size, the size is an int64 that is not negative.
pub parse_bytes_bounds : (value : Text) (n : ℕ) → parse_bytes value ≡ size n → n < int64_half
unfolding parse_bytes
parse_bytes_bounds value n e = parse_value_small (trim_space value) n e
