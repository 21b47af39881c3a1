-- ===== src/HttpSource/Numbers.antt =====
-- Numbers and ranges in headers: what is written is read back (source/http/source.go).
use mathlib.Core.Option.{some-injective}
use varc.Base.{
  ℕ, zero, suc, ◌+◌, ◌-◌, ◌*◌, ◌/◌, ◌%◌, ◌≤◌, ◌<◌, ◌≡◌, ◌≢◌, ◌∙◌, inl, inr, refl, sym, ap, subst,
  arith, true, false, ◌&&◌, ◌||◌, some, [], ◌∷◌, ◌++◌, ltb, leb, ◌==◌, lt64, le64, int64_half,
  Bool-cases,
}
use varc.HttpSource.{
  Text, same_text, cut_prefix, before, cut, digits, number, positive, parse_int, decimal_digits,
  decimal, bytes_unit, in_order, three, parse_parts, parse_after_unit, parse_unit,
  parse_content_range,
}

-- Only digits, of which there is at least one.
abbrev pub AllDigits : Text → Type 0
AllDigits [] = Unit {0}
AllDigits (c ∷ t) = (48 ≤ c) × (c ≤ 57) × AllDigits t

pub AllDigits-append : (s t : Text) → AllDigits s → AllDigits t → AllDigits (s ++ t)
AllDigits-append [] t a b = b
AllDigits-append (c ∷ s) t (l, h, a) b = (l, h, AllDigits-append s t a b)

digits_nil : (m n : ℕ) → m ≡ n → digits m [] ≡ some n
unfolding digits
digits_nil m n e = ap some e

some_front : (s : Text) (c : ℕ) → (d : ℕ) × (t : Text) × (s ++ c ∷ [] ≡ d ∷ t)
some_front [] c = (c, [], refl)
some_front (d ∷ s) c = (d, s ++ c ∷ [], refl)

digits-step :
    (c n : ℕ) (t : Text) → 48 ≤ c → c ≤ 57 → digits n (c ∷ t) ≡ digits (n * 10 + (c - 48)) t
unfolding digits
digits-step c n t l h = let d : leb 48 c && leb c 57 ≡ true = ground arith in rw d refl

digits-append :
    (s t : Text) (n m : ℕ) → AllDigits s → digits n s ≡ some m → digits n (s ++ t) ≡ digits m t
unfolding digits
digits-append [] t n m a e = ap (λ k. digits k t) (some-injective n m e)
digits-append (c ∷ s) t n m (l, h, a) e =
    digits-step c n (s ++ t) l h
    ∙ digits-append s t (n * 10 + (c - 48)) m a (sym (digits-step c n s l h) ∙ e)

decimal_digits-AllDigits : (k n : ℕ) → AllDigits (decimal_digits k n)
unfolding decimal_digits
decimal_digits-AllDigits zero n = tt
decimal_digits-AllDigits (suc k) n = elim (Bool-cases (ltb n 10)) [
  | inl e ↦ rw e (omega arith, ground arith, tt)
  | inr e ↦ rw e (
      AllDigits-append (decimal_digits k (n / 10)) ((48 + n % 10) ∷ [])
        (decimal_digits-AllDigits k (n / 10)) (omega arith, omega arith, tt))
]

digits-decimal_digits : (k n : ℕ) → n < k → digits 0 (decimal_digits k n) ≡ some n
unfolding decimal_digits
digits-decimal_digits zero n lt = absurd (omega arith)
digits-decimal_digits (suc k) n lt = elim (Bool-cases (ltb n 10)) [
  | inl e ↦ rw e (
      digits-step (48 + n) 0 [] (omega arith) (ground arith)
      ∙ digits_nil (0 * 10 + (48 + n - 48)) n (omega arith))
  | inr e ↦
      let front = digits-decimal_digits k (n / 10) (ground arith) in
      rw e (
        digits-append (decimal_digits k (n / 10)) ((48 + n % 10) ∷ []) 0 (n / 10)
          (decimal_digits-AllDigits k (n / 10)) front
        ∙ digits-step (48 + n % 10) (n / 10) [] (omega arith) (omega arith)
        ∙ digits_nil (n / 10 * 10 + (48 + n % 10 - 48)) n (omega arith))
]

-- The digits of a number are some, and the first of them is no sign.
pub decimal-cases : (n : ℕ) → (c : ℕ) × (t : Text) × (decimal n ≡ c ∷ t)
unfolding decimal decimal_digits
decimal-cases n = elim (Bool-cases (ltb n 10)) [
  | inl e ↦ rw e (48 + n, [], refl)
  | inr e ↦ rw e (some_front (decimal_digits n (n / 10)) (48 + n % 10))
]

pub parse_int-decimal : (n : ℕ) → n < int64_half → parse_int (decimal n) ≡ some n
unfolding parse_int positive number decimal
parse_int-decimal n lt =
    let (c, t, e) = decimal-cases n in
    let all : AllDigits (c ∷ t) = subst AllDigits e (decimal_digits-AllDigits (suc n) n) in
    let sign : c == 45 ≡ false = ground (arith, all.0) in
    let plus : c == 43 ≡ false = ground (arith, all.0) in
    let value : digits 0 (c ∷ t) ≡ some n =
      ap (digits 0) (sym e) ∙ digits-decimal_digits (suc n) n (omega arith) in
    let small : ltb n int64_half ≡ true = ground arith in
    ap parse_int e ∙ rw (sign, plus, value, small) refl

-- A text without a byte is cut at that byte.
abbrev Without : ℕ → Text → Type 0
Without c [] = Unit {0}
Without c (d ∷ t) = (d ≢ c) × Without c t

Without-append : (c : ℕ) (s t : Text) → Without c s → Without c t → Without c (s ++ t)
Without-append c [] t a b = b
Without-append c (d ∷ s) t (x, a) b = (x, Without-append c s t a b)

AllDigits-Without : (c : ℕ) (s : Text) → c < 48 → AllDigits s → Without c s
AllDigits-Without c [] lt a = tt
AllDigits-Without c (d ∷ s) lt (l, h, a) = (omega arith, AllDigits-Without c s lt a)

cut-append : (c : ℕ) (s t : Text) → Without c s → cut c (s ++ c ∷ t) ≡ some (s, t)
unfolding cut before
cut-append c [] t w = let e : c == c ≡ true = ground arith in rw e refl
cut-append c (d ∷ s) t (x, w) =
    let e : d == c ≡ false = ground arith in rw (e, cut-append c s t w) refl

cut_prefix-append : (p t : Text) → cut_prefix p (p ++ t) ≡ some t
unfolding cut_prefix
cut_prefix-append [] t = refl
cut_prefix-append (c ∷ p) t =
    let e : c == c ≡ true = ground arith in rw (e, cut_prefix-append p t) refl

pub decimal-AllDigits : (n : ℕ) → AllDigits (decimal n)
unfolding decimal
decimal-AllDigits n = decimal_digits-AllDigits (suc n) n

-- A number is not the star of an unknown size.
decimal_no_star : (n : ℕ) → same_text (decimal n) (42 ∷ []) ≡ false
unfolding same_text
decimal_no_star n =
    let (c, t, e) = decimal-cases n in
    let all : AllDigits (c ∷ t) = subst AllDigits e (decimal-AllDigits n) in
    let star : c == 42 ≡ false = ground (arith, all.0) in
    ap (λ s. same_text s (42 ∷ [])) e ∙ rw star refl

-- `bytes start-end/size`, as an origin writes it.
abbrev pub content_range : ℕ → ℕ → ℕ → Text
content_range start end size =
    (bytes_unit ++ 32 ∷ []) ++ ((decimal start ++ 45 ∷ decimal end) ++ 47 ∷ decimal size)

in_order_lem :
    (start end size : ℕ)
    → start ≤ end
    → end < size
    → size < int64_half
    → in_order start end size ≡ some (start, end, size)
unfolding in_order lt64 le64
in_order_lem start end size a b c =
    let e : lt64 start 0 || lt64 end start || le64 size end ≡ false = ground arith in rw e refl

-- A header that says which bytes of how many are sent is read as these three numbers: the first byte
-- is not after the last, the last is below the size, and the size is an int64.
pub parse-content_range :
    (start end size : ℕ)
    → start ≤ end
    → end < size
    → size < int64_half
    → parse_content_range (content_range start end size) ≡ some (start, end, size)
unfolding parse_content_range parse_unit parse_after_unit parse_parts three
parse-content_range start end size a b c =
    let unit =
      cut_prefix-append (bytes_unit ++ 32 ∷ [])
        ((decimal start ++ 45 ∷ decimal end) ++ 47 ∷ decimal size) in
    let front : Without 47 (decimal start ++ 45 ∷ decimal end) =
      Without-append 47 (decimal start) (45 ∷ decimal end)
        (AllDigits-Without 47 (decimal start) (omega arith) (decimal-AllDigits start))
        (omega arith, AllDigits-Without 47 (decimal end) (omega arith) (decimal-AllDigits end)) in
    let slash = cut-append 47 (decimal start ++ 45 ∷ decimal end) (decimal size) front in
    let dash =
      cut-append 45 (decimal start) (decimal end)
        (AllDigits-Without 45 (decimal start) (omega arith) (decimal-AllDigits start)) in
    rw
      (
        unit,
        slash,
        decimal_no_star size,
        dash,
        parse_int-decimal start (omega arith),
        parse_int-decimal end (omega arith),
        parse_int-decimal size c,
      )
      (in_order_lem start end size a b c)
