-- ===== src/Caddy/ByteSize/Units.antt =====
-- A size with a unit is read as their product, or refused if that is no int64 (caddy/module.go).
use mathlib.Core.List.{reverse, reverse-append, reverse-reverse, map-append, reverse-cons}
use mathlib.Core.List.Memᴰ.{Memᴰ, head, tail}
use varc.Base.{
  ℕ, ◌*◌, ◌<◌, ◌≤◌, ◌≡◌, ◌∙◌, sym, ap, subst, refl, arith, false, List, [], ◌∷◌, ◌++◌, map, get_or,
  append_assoc, ltb, ◌==◌, if◌then◌else◌, int64_half,
}
use varc.HttpSource.{Text, decimal, parse_int, cut_prefix}
use varc.HttpSource.Numbers.{AllDigits, decimal-AllDigits, decimal-cases, parse_int-decimal}
use varc.Caddy.ByteSize.{
  is_space, trim_left, trim_space, upper_byte, to_upper, reversed, cut_suffix, multipliers,
  taken_unit, split_unit, size, too_large, multiplied, parse_value, parse_bytes,
}
use varc.Caddy.ByteSize.Texts.{
  multiplied_lem, trim_space_id, trim_left_front, AllSpaces, AllSpaces-reverse, AllDigits-reverse,
  trim_left-append, digit_no_space, to_upper_digits, to_upper_spaces, Splits,
}

abbrev All : (Text × ℕ → Type 0) → List (Text × ℕ) → Type 0
All P [] = Unit {0}
All P (q ∷ l) = P q × All P l

All-Memᴰ : (P : Text × ℕ → Type 0) (l : List (Text × ℕ)) (q : Text × ℕ) → All P l → Memᴰ q l → P q
All-Memᴰ P [] q a mem = elim mem [ ]
All-Memᴰ P (r ∷ l) q (p, a) (head e) = subst P (sym e) p
All-Memᴰ P (r ∷ l) q (p, a) (tail mem) = All-Memᴰ P l q a mem

-- The first unit of the table that fits is the one that is written: no earlier one ends like it.
split_unit_lem :
    (unit : Text) (m : ℕ) (t : Text) (x : ℕ) (xs : Text)
    → Memᴰ (unit, m) multipliers
    → x < 65
    → reverse t ≡ reverse unit ++ (x ∷ xs)
    → split_unit multipliers t ≡ (trim_space (reverse (x ∷ xs)), m)
unfolding split_unit cut_suffix taken_unit reversed cut_prefix
split_unit_lem unit m t x xs mem small f =
    let not_i : x == 73 ≡ false = ground arith in
    let not_t : x == 84 ≡ false = ground arith in
    let not_g : x == 71 ≡ false = ground arith in
    let not_m : x == 77 ≡ false = ground arith in
    let not_k : x == 75 ≡ false = ground arith in
    All-Memᴰ (Splits t x xs) multipliers (unit, m)
      (
        λ g. rw g refl,
        (
          λ g. rw g refl,
          (
            λ g. rw g refl,
            (
              λ g. rw g refl,
              (
                λ g. rw g refl,
                (
                  λ g. rw g refl,
                  (
                    λ g. rw g refl,
                    (λ g. rw g refl, (λ g. rw (g, not_i, not_t, not_g, not_m, not_k) refl, tt)),
                  ),
                ),
              ),
            ),
          ),
        ),
      )
      mem f

abbrev IsUnit : Text × ℕ → Type 0
IsUnit (unit, m) = (0 < m) × ((us : Text) × (reverse unit ≡ 66 ∷ us))

multipliers-IsUnit : (q : Text × ℕ) → Memᴰ q multipliers → IsUnit q
multipliers-IsUnit q mem =
    All-Memᴰ IsUnit multipliers q
      (
        (omega arith, (_, refl)),
        (
          (omega arith, (_, refl)),
          (
            (omega arith, (_, refl)),
            (
              (omega arith, (_, refl)),
              (
                (omega arith, (_, refl)),
                (
                  (omega arith, (_, refl)),
                  (
                    (omega arith, (_, refl)),
                    ((omega arith, (_, refl)), ((omega arith, (_, refl)), tt)),
                  ),
                ),
              ),
            ),
          ),
        ),
      )
      mem

-- The text before the unit ends in a digit or a space.
front-cases :
    (gap digits : Text) (d : ℕ) (ds : Text)
    → AllSpaces gap
    → 48 ≤ d
    → d ≤ 57
    → digits ≡ d ∷ ds
    → (x : ℕ) × (xs : Text) × (gap ++ digits ≡ x ∷ xs) × (x < 65)
unfolding is_space
front-cases [] digits d ds a l h e = (d, ds, e, omega arith)
front-cases (c ∷ gap) digits d ds (s, a) l h e = (c, gap ++ digits, refl, ground (arith, s))

map-reverse : (t : Text) → map upper_byte (reverse t) ≡ reverse (map upper_byte t)
map-reverse [] = refl
map-reverse (c ∷ t) =
    ap (map upper_byte) (reverse-cons c t)
    ∙ map-append upper_byte (reverse t) (c ∷ [])
    ∙ ap (λ s. s ++ (upper_byte c ∷ [])) (map-reverse t)
    ∙ sym (reverse-cons (upper_byte c) (map upper_byte t))

letter_no_space : (w : ℕ) → upper_byte w ≡ 66 → is_space w ≡ false
unfolding upper_byte is_space
letter_no_space w e = ground (arith, e)

-- The last letter, whatever its case, is no space.
last_letter :
    (written unit us : Text)
    → to_upper written ≡ unit
    → reverse unit ≡ 66 ∷ us
    → (w : ℕ) × (ws : Text) × (reverse written ≡ w ∷ ws) × (is_space w ≡ false)
unfolding to_upper
last_letter written unit us e f = go (reverse written) refl
  where
    mapped : map upper_byte (reverse written) ≡ 66 ∷ us
    mapped = map-reverse written ∙ ap reverse e ∙ f

    go :
        (r : Text)
        → reverse written ≡ r
        → (w : ℕ) × (ws : Text) × (reverse written ≡ w ∷ ws) × (is_space w ≡ false)
    go [] g = (let h : [] ≡ 66 ∷ us = ap (map upper_byte) (sym g) ∙ mapped in cc)
    go (w ∷ ws) g = (
      w,
      ws,
      g,
      letter_no_space w (ap (λ l. get_or l 0 0) (ap (map upper_byte) (sym g) ∙ mapped)),
    )

-- A text with a digit at its front.
abbrev pub digits_first : (n : ℕ) → (c : ℕ) × (t : Text) × (decimal n ≡ c ∷ t) × (48 ≤ c) × (c ≤ 57)
digits_first n =
    let (c, t, e) = decimal-cases n in
    let all : AllDigits (c ∷ t) = subst AllDigits e (decimal-AllDigits n) in (c, t, e, all.0, all.1)

pub digits_last :
    (n : ℕ) → (d : ℕ) × (t : Text) × (reverse (decimal n) ≡ d ∷ t) × (48 ≤ d) × (d ≤ 57)
digits_last n = go (reverse (decimal n)) refl (AllDigits-reverse (decimal n) (decimal-AllDigits n))
  where
    go :
        (r : Text)
        → reverse (decimal n) ≡ r
        → AllDigits r
        → (d : ℕ) × (t : Text) × (reverse (decimal n) ≡ d ∷ t) × (48 ≤ d) × (d ≤ 57)
    go [] e a =
        let (c, t, f) = decimal-cases n in
        let h : c ∷ t ≡ [] = sym f ∙ sym (reverse-reverse (decimal n)) ∙ ap reverse e in cc
    go (d ∷ t) e (l, h, a) = (d, t, e, l, h)

-- White space after a number is trimmed.
trim_space-decimal :
    (n : ℕ) (gap : Text) → AllSpaces gap → trim_space (decimal n ++ gap) ≡ decimal n
unfolding trim_space
trim_space-decimal n gap a =
    let (c, t, e, l, h) = digits_first n in
    let (d, s, f, l', h') = digits_last n in
    let left : trim_left (decimal n ++ gap) ≡ decimal n ++ gap =
      ap (λ x. trim_left (x ++ gap)) e
      ∙ trim_left_front c (t ++ gap) (digit_no_space c l h)
      ∙ ap (λ x. x ++ gap) (sym e) in
    let right : trim_left (reverse (decimal n ++ gap)) ≡ reverse (decimal n) =
      ap trim_left (reverse-append (decimal n) gap)
      ∙ trim_left-append (reverse gap) (reverse (decimal n)) (AllSpaces-reverse gap a)
      ∙ ap trim_left f
      ∙ trim_left_front d s (digit_no_space d l' h')
      ∙ sym f in
    ap (λ x. reverse (trim_left (reverse x))) left ∙ ap reverse right ∙ reverse-reverse (decimal n)

pub parse_value_lem :
    (v front : Text) (m c : ℕ) (t : Text)
    → v ≡ c ∷ t
    → split_unit multipliers (to_upper v) ≡ (front, m)
    → parse_value v ≡ multiplied m (parse_int front)
unfolding parse_value
parse_value_lem v front m c t e f =
    ap parse_value e
    ∙ ap (λ (q : Text × ℕ). multiplied q.1 (parse_int q.0))
        (ap (λ x. split_unit multipliers (to_upper x)) (sym e) ∙ f)

trim_space-written :
    (n : ℕ) (gap written unit us : Text)
    → to_upper written ≡ unit
    → reverse unit ≡ 66 ∷ us
    → trim_space (decimal n ++ (gap ++ written)) ≡ decimal n ++ (gap ++ written)
trim_space-written n gap written unit us e f =
    let (c, t, g, l, h) = digits_first n in
    let (w, ws, r, no_space) = last_letter written unit us e f in
    trim_space_id (decimal n ++ (gap ++ written)) c w (t ++ (gap ++ written))
      (ws ++ reverse (decimal n ++ gap)) (ap (λ x. x ++ (gap ++ written)) g) (digit_no_space c l h)
      (ap reverse (sym (append_assoc (decimal n) gap written))
        ∙ reverse-append (decimal n ++ gap) written
        ∙ ap (λ x. x ++ reverse (decimal n ++ gap)) r)
      no_space

to_upper-written :
    (n : ℕ) (gap written unit : Text)
    → AllSpaces gap
    → to_upper written ≡ unit
    → to_upper (decimal n ++ (gap ++ written)) ≡ (decimal n ++ gap) ++ unit
unfolding to_upper
to_upper-written n gap written unit a e =
    map-append upper_byte (decimal n) (gap ++ written)
    ∙ ap (λ x. x ++ map upper_byte (gap ++ written))
        (to_upper_digits (decimal n) (decimal-AllDigits n))
    ∙ ap (λ x. decimal n ++ x)
        (map-append upper_byte gap written
          ∙ ap (λ x. x ++ map upper_byte written) (to_upper_spaces gap a)
          ∙ ap (λ x. gap ++ x) e)
    ∙ sym (append_assoc (decimal n) gap unit)

split_unit-written :
    (n : ℕ) (gap unit : Text) (m : ℕ)
    → AllSpaces gap
    → Memᴰ (unit, m) multipliers
    → split_unit multipliers ((decimal n ++ gap) ++ unit) ≡ (decimal n, m)
split_unit-written n gap unit m a mem =
    let (d, ds, e, l, h) = digits_last n in
    let (x, xs, f, small) =
      front-cases (reverse gap) (reverse (decimal n)) d ds (AllSpaces-reverse gap a) l h e in
    let back : reverse (decimal n ++ gap) ≡ x ∷ xs = reverse-append (decimal n) gap ∙ f in
    split_unit_lem unit m ((decimal n ++ gap) ++ unit) x xs mem small
      (reverse-append (decimal n ++ gap) unit ∙ ap (λ y. reverse unit ++ y) back)
    ∙ ap (λ y. (trim_space (reverse y), m)) (sym back)
    ∙ ap (λ y. (trim_space y, m)) (reverse-reverse (decimal n ++ gap))
    ∙ ap (λ y. (y, m)) (trim_space-decimal n gap a)

-- A number that is an int64, white space and a unit of the table, in whatever case, is read as the number
-- of bytes, and refused as too large exactly if their product is no int64.
pub parse_bytes-written :
    (n : ℕ) (gap written unit : Text) (m : ℕ)
    → n < int64_half
    → AllSpaces gap
    → to_upper written ≡ unit
    → Memᴰ (unit, m) multipliers
    → parse_bytes (decimal n ++ (gap ++ written))
      ≡ (if ltb (n * m) int64_half then size (n * m) else too_large)
unfolding parse_bytes
parse_bytes-written n gap written unit m small a e mem =
    let (positive, (us, f)) = multipliers-IsUnit (unit, m) mem in
    let (c, t, g, l, h) = digits_first n in
    ap parse_value (trim_space-written n gap written unit us e f)
    ∙ parse_value_lem (decimal n ++ (gap ++ written)) (decimal n) m c (t ++ (gap ++ written))
        (ap (λ x. x ++ (gap ++ written)) g)
        (ap (split_unit multipliers) (to_upper-written n gap written unit a e)
          ∙ split_unit-written n gap unit m a mem)
    ∙ ap (multiplied m) (parse_int-decimal n small)
    ∙ multiplied_lem m n positive small
