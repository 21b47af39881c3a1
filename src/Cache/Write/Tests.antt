-- ===== src/Cache/Write/Tests.antt =====
-- A disk that writes all it is given, and the writes of cache/item.go on a small file.
use varc.Base.{
  ℕ, ◌+◌, ◌-◌, zero, suc, ◌≡◌, refl, arith, true, none, [], ◌∷◌, length, get_or, ltb, leb, ◌&&◌,
  if◌then◌else◌,
}
use varc.Ranges.{find_all, is_empty, find, intersect}
use varc.Cache.Write.{Disk, IsDisk, Item, write_at_no_overwrite}
use varc.Cache.Write.Safety.{Written, IsFaithful, IsOrigin, write_at_no_overwrite-Written}

abbrev pub good_disk : Disk
good_disk f b off = record {
  wrote = length b;
  err = none;
  file = λ x. if leb off x && ltb x (off + length b) then get_or b (x - off) 0 else f x;
}

add_sub : (a b : ℕ) → a + b - a ≡ b
add_sub a b = omega arith

pub good_disk-IsDisk : IsDisk good_disk
good_disk-IsDisk = record {
  bounded = λ f b off. omega arith;
  written = λ f b off i lt.
      let lo : leb off (off + i) ≡ true = ground arith in
      let hi : ltb (off + i) (off + length b) ≡ true = ground arith in
      rw (lo, hi, add_sub off i) refl;
  outside = λ f b off x h. ground arith;
}

-- The origin's byte at `x` is `x + 100`; bytes 0 and 1 are cached.
abbrev origin : ℕ → ℕ
origin x = x + 100

abbrev cached : Item
cached = record {
  file = λ x. if ltb x 2 then x + 100 else 0;
  rs = record { pos = 0; size = 2 } ∷ [];
  size = 8;
}

cached-IsFaithful : IsFaithful origin cached
cached-IsFaithful = (omega arith, λ x h. ground arith)

-- One byte is skipped and three are written.
write_test : (write_at_no_overwrite good_disk cached (101 ∷ 102 ∷ 103 ∷ 104 ∷ []) 1).skipped ≡ 1
unfolding write_at_no_overwrite find_all is_empty find intersect
write_test = refl

four_bytes : IsOrigin origin (101 ∷ 102 ∷ 103 ∷ 104 ∷ []) 1
four_bytes zero lt = refl
four_bytes (suc zero) lt = refl
four_bytes (suc (suc zero)) lt = refl
four_bytes (suc (suc (suc zero))) lt = refl
four_bytes (suc (suc (suc (suc i)))) lt = omega arith

write_at_no_overwrite-Written_example :
    Written origin cached 1 4
      (write_at_no_overwrite good_disk cached (101 ∷ 102 ∷ 103 ∷ 104 ∷ []) 1)
write_at_no_overwrite-Written_example =
    write_at_no_overwrite-Written origin good_disk cached (101 ∷ 102 ∷ 103 ∷ 104 ∷ []) 1
      good_disk-IsDisk cached-IsFaithful four_bytes (omega arith)
