-- ===== src/Caddy/ByteSize.antt =====
-- caddy/module.go: `parseBytes`, which reads a size with its unit. The texts are ASCII.
pub mod Texts
pub mod Units
pub mod Bounds
use mathlib.Core.List.{reverse}
use varc.Base.{
  ℕ, ◌-◌, ◌*◌, ◌/◌, ◌%◌, Bool, true, false, ◌&&◌, ◌||◌, Option, none, some, List, [], ◌∷◌, map, leb,
  ◌==◌, if◌then◌else◌, lt64, int64_mod, int64_half,
}
use varc.HttpSource.{Text, cut_prefix, parse_int}

-- `strings.TrimSpace`
unfoldable pub is_space : ℕ → Bool
is_space c = (leb 9 c && leb c 13) || (c == 32)

unfoldable pub trim_left : Text → Text
trim_left [] = []
trim_left (c ∷ t) = let rest = trim_left t in if is_space c then rest else c ∷ t

unfoldable pub trim_space : Text → Text
trim_space t = reverse (trim_left (reverse (trim_left t)))

-- `strings.ToUpper`
unfoldable pub upper_byte : ℕ → ℕ
upper_byte c = if leb 97 c && leb c 122 then c - 32 else c

unfoldable pub to_upper : Text → Text
to_upper t = map upper_byte t

-- `strings.HasSuffix` and `strings.TrimSuffix`.
unfoldable pub reversed : Option Text → Option Text
reversed none = none
reversed (some t) = some (reverse t)

unfoldable pub cut_suffix : Text → Text → Option Text
unfolding reversed
cut_suffix suffix t = reversed (cut_prefix (reverse suffix) (reverse t))

-- `multipliers`: TIB, GIB, MIB, KIB, TB, GB, MB, KB and B.
abbrev pub multipliers : List (Text × ℕ)
multipliers =
    (84 ∷ 73 ∷ 66 ∷ [], 1099511627776)
    ∷ (71 ∷ 73 ∷ 66 ∷ [], 1073741824)
    ∷ (77 ∷ 73 ∷ 66 ∷ [], 1048576)
    ∷ (75 ∷ 73 ∷ 66 ∷ [], 1024)
    ∷ (84 ∷ 66 ∷ [], 1000000000000)
    ∷ (71 ∷ 66 ∷ [], 1000000000)
    ∷ (77 ∷ 66 ∷ [], 1000000)
    ∷ (75 ∷ 66 ∷ [], 1000)
    ∷ (66 ∷ [], 1)
    ∷ []

-- The loop over them: the text before the unit, and the multiplier.
unfoldable pub taken_unit : ℕ → Option Text → Text × ℕ → Text × ℕ
taken_unit m none rest = rest
taken_unit m (some front) rest = (trim_space front, m)

unfoldable pub split_unit : List (Text × ℕ) → Text → Text × ℕ
unfolding taken_unit
split_unit [] t = (t, 1)
split_unit ((suffix, m) ∷ us) t = taken_unit m (cut_suffix suffix t) (split_unit us t)

pub data ByteSize : Type 0 where
  size : ℕ → ByteSize
  empty_size invalid_size too_large : ByteSize

unfoldable pub multiplied : ℕ → Option ℕ → ByteSize
multiplied m none = invalid_size
multiplied m (some n) =
    if lt64 n 0
    then invalid_size
    else (if lt64 ((int64_half - 1) / m) n then too_large else size (n * m % int64_mod))

unfoldable pub parse_value : Text → ByteSize
unfolding multiplied
parse_value [] = empty_size
parse_value (c ∷ t) =
    let (front, m) = split_unit multipliers (to_upper (c ∷ t)) in multiplied m (parse_int front)

-- `parseBytes`
unfoldable pub parse_bytes : Text → ByteSize
unfolding parse_value
parse_bytes value = parse_value (trim_space value)
