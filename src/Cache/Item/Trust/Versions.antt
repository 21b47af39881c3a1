-- ===== src/Cache/Item/Trust/Versions.antt =====
-- The load and the test of the fingerprint in `openLocked` (cache/item.go).
use varc.Base.{
  ◌≡◌, ◌∙◌, sym, refl, subst, inl, inr, arith, true, false, none, some, [], ◌==◌, lt64, Bool-cases,
}
use varc.Ranges.{total_size}
use varc.Ranges.Valid.{covers}
use varc.Ranges.Size.{total_size_zero}
use varc.Cache.Write.{Bytes}
use varc.Cache.Item.{
  Fingerprint, same, MetaFile, missing, corrupt, holds, CacheItem, Metadata, Answers, fresh_info,
  load_from, reset_locked, ◌>>=◌,
}
use varc.Cache.Item.Open.{mark_loaded, load_once, matches, check_version}
use varc.Cache.Item.Trust.{
  BytesOf, MetaTrusted, IsTrusted, IsQuiet, Ends, unless-Ends, emptied-IsTrusted,
}
use varc.Cache.Item.Trust.Resets.{reset_locked-Good}

same_eq : (v w : Fingerprint) → same v w ≡ true → v ≡ w
unfolding same
same_eq none none e = refl
same_eq (some a) (some b) e = ground arith
same_eq none (some b) e = cc
same_eq (some a) none e = cc

matches_eq : (v w : Fingerprint) → matches v w ≡ true → w ≡ v
unfolding matches
matches_eq none none e = cc
matches_eq (some a) (some b) e = ground arith
matches_eq none (some b) e = cc
matches_eq (some a) none e = cc

-- If nothing is cached, a scheduler that is there fetches the object that is opened.
abbrev pub NoStale : Metadata → CacheItem → Type 0
NoStale meta it =
    total_size it.info.rs ≡ 0 → (v : Fingerprint) → it.downloaders ≡ some v → meta.fingerprint ≡ v

module _ (version : Fingerprint → Bytes) (a : Answers) (meta : Metadata) where
  pub record IsLoaded (it : CacheItem) : Type 0 where
    pub loaded : it.loaded ≡ true
    pub no_stale : NoStale meta it

  -- What is cached and fetched is the object that is opened.
  pub record IsCurrent (it : CacheItem) : Type 0 where
    pub loaded : it.loaded ≡ true
    pub current : BytesOf version meta.fingerprint it.data_file it.info.rs
    pub fetches : (v : Fingerprint) → it.downloaders ≡ some v → meta.fingerprint ≡ v

  nothing_cached :
      (it : CacheItem) → it.info.rs ≡ [] → it.downloaders ≡ none → it.loaded ≡ true → IsCurrent it
  nothing_cached it e d l = record {
    loaded = l;
    current = λ f _ x c. let c' : covers [] x ≡ true = subst (λ rs. covers rs x ≡ true) e c in cc;
    fetches = λ v n. cc;
  }

  load_from-Ends :
      (it : CacheItem) (m : MetaFile)
      → it.meta_file ≡ m
      → IsTrusted version it
      → it.loaded ≡ false
      → Ends (IsTrusted version) IsLoaded (load_from a m it >>= mark_loaded)
  unfolding load_from mark_loaded fresh_info
  load_from-Ends it missing e t l =
      let u = t.unloaded l in
      (
        emptied-IsTrusted version _ refl u.no_object u.no_downloaders refl,
        λ _. record { loaded = refl; no_stale = λ _ v n. cc (u.no_downloaders) },
      )
  load_from-Ends it corrupt e t l =
      let u = t.unloaded l in
      (
        emptied-IsTrusted version _ refl u.no_object u.no_downloaders refl,
        λ _. record { loaded = refl; no_stale = λ _ v n. cc (u.no_downloaders) },
      )
  load_from-Ends it (holds info) e t l =
      let u = t.unloaded l in
      let m : MetaTrusted version it.data_file (holds info) =
        subst (MetaTrusted version it.data_file) e u.meta in
      elim (Bool-cases (info.key == it.key)) [
        | inr n ↦ rw n (t, λ x. cc)
        | inl y ↦ rw y (
          record {
            valid = m.0;
            bytes = m.1;
            owned = λ v n. cc (u.no_object);
            fetching = λ v n. cc (u.no_downloaders);
            unloaded = λ x. cc;
          },
          λ _. record { loaded = refl; no_stale = λ _ v n. cc (u.no_downloaders) },
        )
      ]

  pub load_once-Ends :
      (it : CacheItem)
      → IsTrusted version it
      → NoStale meta it
      → Ends (IsTrusted version) IsLoaded (load_once a it)
  unfolding load_once
  load_once-Ends it t s = elim (Bool-cases it.loaded) [
    | inl e ↦ simp e (t, λ _. record { loaded = e; no_stale = s })
    | inr e ↦ simp e (
        unless-Ends (IsTrusted version) IsLoaded a.open_meta it
          (load_from a it.meta_file it >>= mark_loaded) t (load_from-Ends it it.meta_file refl t e))
  ]

  pub check_version-Ends :
      (it : CacheItem)
      → IsQuiet version a.meanwhile
      → IsTrusted version it
      → IsLoaded it
      → Ends (IsTrusted version) IsCurrent (check_version a meta it)
  unfolding check_version
  check_version-Ends it q t l = elim (Bool-cases (lt64 0 it.opens)) [
    | inl o ↦ rw o (elim (Bool-cases (same it.info.fingerprint meta.fingerprint)) [
      | inr n ↦ rw n (t, λ x. cc)
      | inl y ↦
          let e : it.info.fingerprint ≡ meta.fingerprint =
            same_eq it.info.fingerprint meta.fingerprint y in
          rw y (
            t,
            λ _. record {
              loaded = l.loaded;
              current = subst (λ v. BytesOf version v it.data_file it.info.rs) e t.bytes;
              fetches = λ v n. sym e ∙ t.fetching v n;
            },
          )
    ])
    | inr o ↦ rw o (elim (Bool-cases (total_size it.info.rs == 0)) [
      | inl z ↦
          let zero_size : total_size it.info.rs ≡ 0 = ground arith in
          let e : it.info.rs ≡ [] = total_size_zero it.info.rs t.valid zero_size in
          rw z (
            t,
            λ _. record {
              loaded = l.loaded;
              current = λ f _ x c.
                  let c' : covers [] x ≡ true = subst (λ rs. covers rs x ≡ true) e c in cc;
              fetches = l.no_stale zero_size;
            },
          )
      | inr z ↦ rw z (elim (Bool-cases (matches meta.fingerprint it.info.fingerprint)) [
        | inl y ↦
            let e : it.info.fingerprint ≡ meta.fingerprint =
              matches_eq meta.fingerprint it.info.fingerprint y in
            rw y (
              t,
              λ _. record {
                loaded = l.loaded;
                current = subst (λ v. BytesOf version v it.data_file it.info.rs) e t.bytes;
                fetches = λ v n. sym e ∙ t.fetching v n;
              },
            )
        | inr n ↦
            let r = reset_locked-Good version a it q t l.loaded in
            rw n (
              r.0.0,
              λ ok. let d = r.1 ok in nothing_cached (reset_locked a it).0 d.1 d.0.idle d.0.loaded,
            )
      ])
    ])
  ]
