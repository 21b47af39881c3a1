-- ===== src/Cache/Existing/Loads.antt =====
-- What is taken over from an earlier run (cache/cache.go).
use varc.Base.{
  ℕ, ◌<◌, ◌≡◌, ◌≢◌, ◌∙◌, refl, sym, subst, arith, Bool, true, false, not, ◌&&◌, ◌||◌, Option, none,
  some, ◌==◌, if◌then◌else◌, lt64, int64_mod,
}
use varc.Ranges.{intersection}
use varc.Ranges.Valid.{IsValid, covers, inside}
use varc.Ranges.FindAll.{intersection_lem}
use varc.Cache.Write.{Bytes}
use varc.Cache.Item.{Fingerprint, Info, DataFile, CacheItem, new_item}
use varc.Cache.Item.Trust.{BytesOf, IsTrusted}
use varc.Cache.Existing.{
  MetaRead, meta_gone, corrupt, unreadable, reads_as, DataStat, data_gone, stat_failed, has_file,
  Lookup, present, absent, lookup_failed, Removed, removed, was_gone, remove_failed, Existing,
  Loaded, skipped, load_failed, takes_over, drop_meta, unless_failed, drop_both, taken_over,
  on_error, unless_present, relocate, place, check_data, check_meta, load_existing_meta,
}

-- What stands behind an item that is taken over: metadata with a key, and a regular data file of the
-- size that the metadata gives; the item has this key and these bytes.
pub record TakenOver (version : Fingerprint → Bytes) (x : Existing) (it : CacheItem) : Type 0 where
  pub from :
      (info : Info) × (file : DataFile) × (time : ℕ) × (x.read ≡ reads_as info)
      × (x.stat ≡ has_file true file time)
      × (file.size ≡ info.size)
      × (info.key ≢ 0)
      × (it.key ≡ info.key)
      × (it.data_file ≡ some file)
  pub trusted : IsTrusted version it
  pub clipped : (b : ℕ) → covers it.info.rs b ≡ true → b < it.info.size

-- The files that an earlier run left: the size is an int64, and the ranges that the metadata lists hold
-- the bytes of the object with its fingerprint.
pub record AreFiles (version : Fingerprint → Bytes) (x : Existing) : Type 0 where
  pub small : (info : Info) → x.read ≡ reads_as info → info.size < int64_mod
  pub valid : (info : Info) → x.read ≡ reads_as info → IsValid info.rs
  pub bytes :
      (info : Info) (file : DataFile) (time : ℕ)
      → x.read ≡ reads_as info
      → x.stat ≡ has_file true file time
      → BytesOf version info.fingerprint (some file) info.rs

and_both : (a b : Bool) → a && b ≡ true → (a ≡ true) × (b ≡ true)
and_both true true e = (refl, refl)
and_both true false e = absurd (cc (e))
and_both false b e = absurd (cc (e))

module _ (version : Fingerprint → Bytes) (x : Existing) where
  Recovers : Loaded → Type 0
  Recovers skipped = Unit {0}
  Recovers (load_failed e) = Unit {0}
  Recovers (takes_over it) = TakenOver version x it

  drop_meta-Recovers : (r : Removed) → Recovers (drop_meta r)
  unfolding drop_meta Recovers
  drop_meta-Recovers removed = tt
  drop_meta-Recovers was_gone = tt
  drop_meta-Recovers (remove_failed e) = tt

  unless_failed-Recovers :
      (r : Removed) (next : Loaded) → Recovers next → Recovers (unless_failed r next)
  unfolding unless_failed Recovers
  unless_failed-Recovers removed next h = h
  unless_failed-Recovers was_gone next h = h
  unless_failed-Recovers (remove_failed e) next h = tt

  on_error-Recovers : (e : Option ℕ) (next : Loaded) → Recovers next → Recovers (on_error e next)
  unfolding on_error Recovers
  on_error-Recovers none next h = h
  on_error-Recovers (some e) next h = tt

  unless_present-Recovers :
      (l : Lookup) (next : Loaded) → Recovers next → Recovers (unless_present l next)
  unfolding unless_present Recovers
  unless_present-Recovers present next h = tt
  unless_present-Recovers absent next h = h
  unless_present-Recovers (lookup_failed e) next h = tt

  module _ (info : Info) (file : DataFile) (time : ℕ) (read : x.read ≡ reads_as info)
      (stat : x.stat ≡ has_file true file time) (small : info.size < int64_mod)
      (valid : IsValid info.rs) (bytes : BytesOf version info.fingerprint (some file) info.rs) where
    taken_over-TakenOver :
        file.size ≡ info.size
        → info.key ≢ 0
        → lt64 info.size 0 ≡ false
        → TakenOver version x (taken_over info file time)
    unfolding taken_over new_item lt64
    taken_over-TakenOver size key positive =
        let (done, same) =
          intersection_lem info.rs (record { pos = 0; size = info.size }) valid (ground arith) in
        let whole : (b : ℕ)
            → covers (intersection info.rs (record { pos = 0; size = info.size })) b ≡ true
            → covers info.rs b ≡ true =
          λ b c. (and_both (covers info.rs b) _ (sym (same b) ∙ c)).0 in
        record {
          from = (info, file, time, read, stat, size, key, refl, refl);
          trusted = record {
            valid = done;
            bytes = λ f e b c. bytes f e b (whole b c);
            owned = λ v e. cc;
            fetching = λ v e. cc;
            unloaded = λ e. cc;
          };
          clipped = λ b c.
              let within : inside (record { pos = 0; size = info.size }) b ≡ true =
                (and_both (covers info.rs b) _ (sym (same b) ∙ c)).1 in
              ground arith;
        }

    place-Recovers :
        file.size ≡ info.size
        → info.key ≢ 0
        → lt64 info.size 0 ≡ false
        → Recovers (place x info file time)
    unfolding place relocate Recovers
    place-Recovers size key positive = by_place x.in_place
      where
        item : Loaded
        item = takes_over (taken_over info file time)

        by_place : (b : Bool) → Recovers (if b then item else relocate x item)
        by_place true = taken_over-TakenOver size key positive
        by_place false = unless_present-Recovers x.expected_meta _ (
            unless_present-Recovers x.expected_data _ (
              on_error-Recovers x.make_dirs _ (
                on_error-Recovers x.move_data _
                  (on_error-Recovers x.move_meta item (taken_over-TakenOver size key positive)))))

  module _ (files : AreFiles version x) where
    check_data-Recovers :
        (info : Info) (d : DataStat)
        → x.read ≡ reads_as info
        → x.stat ≡ d
        → info.key ≢ 0
        → lt64 info.size 0 ≡ false
        → Recovers (check_data x info d)
    unfolding check_data drop_both Recovers
    check_data-Recovers info data_gone r s k p = drop_meta-Recovers x.remove_meta
    check_data-Recovers info (stat_failed e) r s k p = tt
    check_data-Recovers info (has_file false file time) r s k p =
        unless_failed-Recovers x.remove_meta _ (unless_failed-Recovers x.remove_data skipped tt)
    check_data-Recovers info (has_file true file time) r s k p =
        by_size (file.size == info.size) refl
      where
        by_size :
            (b : Bool)
            → file.size == info.size ≡ b
            → Recovers (if not true || not b then drop_both x else place x info file time)
        by_size true e =
            place-Recovers info file time r s (files.small info r) (files.valid info r)
              (files.bytes info file time r s) (ground arith) k p
        by_size false e =
            unless_failed-Recovers x.remove_meta _ (unless_failed-Recovers x.remove_data skipped tt)

    check_meta-Recovers : (m : MetaRead) → x.read ≡ m → Recovers (check_meta x m)
    unfolding check_meta Recovers
    check_meta-Recovers meta_gone r = tt
    check_meta-Recovers corrupt r = drop_meta-Recovers x.remove_meta
    check_meta-Recovers (unreadable e) r = tt
    check_meta-Recovers (reads_as info) r =
        by_key (info.key == 0) (lt64 info.size 0) x.path_valid refl refl
      where
        by_key :
            (a b c : Bool)
            → info.key == 0 ≡ a
            → lt64 info.size 0 ≡ b
            → Recovers (
                if a || b
                then drop_meta x.remove_meta
                else (if c then check_data x info x.stat else load_failed none))
        by_key true b c k p = drop_meta-Recovers x.remove_meta
        by_key false true c k p = drop_meta-Recovers x.remove_meta
        by_key false false false k p = tt
        by_key false false true k p = check_data-Recovers info x.stat r refl (ground arith) p

  -- An item that is taken over from an earlier run can be trusted: its metadata has a key, its data file
  -- is a regular file of the size that the metadata gives, and the bytes that it records as present lie
  -- inside the object and are those of the object with its fingerprint. The condition is that the
  -- files are as an earlier run left them.
  pub load_existing_meta-TakenOver :
      (it : CacheItem)
      → AreFiles version x
      → load_existing_meta x ≡ takes_over it
      → TakenOver version x it
  unfolding load_existing_meta Recovers
  load_existing_meta-TakenOver it files e =
      let t : Recovers (takes_over it) = subst Recovers e (check_meta-Recovers files x.read refl) in
      t
