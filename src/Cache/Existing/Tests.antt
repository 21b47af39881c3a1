-- ===== src/Cache/Existing/Tests.antt =====
-- An item of ten bytes, of which four are present, from an earlier run (cache/cache.go).
use varc.Base.{
  ℕ, ◌≡◌, refl, subst, ◌<◌, int64_mod, arith, Bool, true, Option, none, some, List, [], ◌∷◌,
}
use varc.Ranges.Valid.{IsValid}
use varc.Cache.Item.{Fingerprint, Info, DataFile}
use varc.Cache.Existing.{
  reads_as, has_file, absent, removed, Existing, takes_over, taken_over, load_existing_meta,
}
use varc.Cache.Existing.Loads.{AreFiles, TakenOver, load_existing_meta-TakenOver}

abbrev left_info : Info
left_info = record {
  key = 7;
  atime = 50;
  size = 10;
  rs = record { pos = 2; size = 4 } ∷ [];
  fingerprint = some 3;
}

abbrev zeros : ℕ → ℕ
zeros x = 0

abbrev left_file : DataFile
left_file = record { bytes = zeros; size = 10 }

-- Files at another place, which are moved.
abbrev left : Existing
left = record {
  read = reads_as left_info;
  path_valid = true;
  stat = has_file true left_file 60;
  in_place = Bool.false;
  expected_meta = absent;
  expected_data = absent;
  make_dirs = none;
  move_data = none;
  move_meta = none;
  remove_meta = removed;
  remove_data = removed;
}

abbrev all_zeros : Fingerprint → ℕ → ℕ
all_zeros v = zeros

left-AreFiles : AreFiles all_zeros left
left-AreFiles = record {
  small = λ info e.
      let same : left_info ≡ info = cc (e) in
      subst (λ (i : Info). i.size < int64_mod) same (omega arith);
  valid = λ info e.
      let same : left_info ≡ info = cc (e) in
      subst (λ (i : Info). IsValid i.rs) same (omega arith, omega arith, omega arith, tt);
  bytes = λ info file time e d f g x c.
      let same : left_file ≡ f = cc (d, g) in subst (λ (k : DataFile). k.bytes x ≡ 0) same refl;
}

left_taken : load_existing_meta left ≡ takes_over (taken_over left_info left_file 60)
unfolding load_existing_meta varc.Cache.Existing.check_meta varc.Base.lt64
left_taken = refl

load_existing_meta-TakenOver_example : TakenOver all_zeros left (taken_over left_info left_file 60)
load_existing_meta-TakenOver_example =
    load_existing_meta-TakenOver all_zeros left (taken_over left_info left_file 60) left-AreFiles
      left_taken
