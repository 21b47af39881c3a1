-- ===== src/Caddy/Provision/Decimals.antt =====
-- Numbers that are written without a unit are read back (caddy/module.go).
use mathlib.Core.List.{reverse}
use varc.Base.{
  ℕ, ◌<◌, ◌≤◌, ◌≡◌, ◌∙◌, ap, refl, arith, true, false, some, ◌∷◌, ltb, lt64, int64_half, ◌*◌, ◌==◌,
}
use varc.Base.Int64.{lt64_small}
use varc.HttpSource.{Text, decimal, cut_prefix}
use varc.HttpSource.Numbers.{decimal-AllDigits, parse_int-decimal}
use varc.Caddy.ByteSize.{
  multipliers, split_unit, cut_suffix, reversed, taken_unit, size, parse_bytes, parse_value,
  multiplied,
}
use varc.Caddy.ByteSize.Texts.{digit_no_space, trim_space_id, to_upper_digits, multiplied_lem}
use varc.Caddy.ByteSize.Units.{digits_first, digits_last, parse_value_lem}
use varc.Caddy.Caddyfile.{size_value, count_value, depth_value, size_text, count_text, depth_text}

-- A number without a unit.
split_unit_none :
    (t : Text) (x : ℕ) (xs : Text) → x < 65 → reverse t ≡ x ∷ xs → split_unit multipliers t ≡ (t, 1)
unfolding split_unit cut_suffix taken_unit reversed cut_prefix
split_unit_none t x xs small e = let other : x == 66 ≡ false = ground arith in rw (e, other) refl

parse_bytes-decimal : (n : ℕ) → n < int64_half → parse_bytes (decimal n) ≡ size n
unfolding parse_bytes
parse_bytes-decimal n small =
    let (c, t, e, l, h) = digits_first n in
    let (d, s, f, l', h') = digits_last n in
    let fits : ltb (n * 1) int64_half ≡ true = ground arith in
    ap parse_value
      (trim_space_id (decimal n) c d t s e (digit_no_space c l h) f (digit_no_space d l' h'))
    ∙ parse_value_lem (decimal n) (decimal n) 1 c t e (
        ap (split_unit multipliers) (to_upper_digits (decimal n) (decimal-AllDigits n))
        ∙ split_unit_none (decimal n) d s (omega arith) f)
    ∙ ap (multiplied 1) (parse_int-decimal n small)
    ∙ multiplied_lem 1 n (omega arith) small
    ∙ rw fits (ap size (omega arith))

pub size_text-decimal : (n : ℕ) → n < int64_half → size_text (decimal n) ≡ some n
unfolding size_text size_value
size_text-decimal n small = rw (parse_bytes-decimal n small) refl

pub count_text-decimal : (n : ℕ) → n < int64_half → count_text (decimal n) ≡ some n
unfolding count_text count_value
count_text-decimal n small =
    let e : lt64 n 0 ≡ false = lt64_small n 0 small (omega arith) ∙ ground arith in
    rw (parse_int-decimal n small, e) refl

pub depth_text-decimal : (n : ℕ) → n ≤ 16 → depth_text (decimal n) ≡ some n
unfolding depth_text depth_value
depth_text-decimal n le =
    let e : lt64 n 0 ≡ false = lt64_small n 0 (omega arith) (omega arith) ∙ ground arith in
    let f : lt64 16 n ≡ false = lt64_small 16 n (omega arith) (omega arith) ∙ ground arith in
    rw (parse_int-decimal n (omega arith), e, f) refl
