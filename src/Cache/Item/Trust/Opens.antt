-- ===== src/Cache/Item/Trust/Opens.antt =====
-- `openLocked` never takes the bytes of one fingerprint for those of another (cache/item.go).
use varc.Base.{
  ◌<◌, ◌≡◌, ◌∙◌, sym, refl, subst, inl, inr, arith, Bool, true, false, ◌&&◌, Option, none, some,
  List, [], ltb, ◌==◌, le64, int64_half, add64, Bool-cases,
}
use varc.Ranges.{Range, total_size, intersection}
use varc.Ranges.Valid.{IsValid, covers, inside}
use varc.Ranges.FindAll.{intersection_lem}
use varc.Ranges.Size.{total_size_zero}
use varc.Cache.Write.{Bytes}
use varc.Cache.Item.{
  Fingerprint, DataFile, CacheItem, ItemError, Metadata, Answers, create_for, create_downloaders,
  save_locked, saved, first_error,
}
use varc.Cache.Item.Open.{
  load_once, check_version, make_dirs, created, ranges_for, open_fd, truncated, resize_file, resize,
  adopt, publish, count_open, open_locked,
}
use varc.Cache.Item.Trust.{
  BytesOf, IsTrusted, IsQuiet, Ends, >>=-Ends, unless-Ends, with_counts,
  create_downloaders-IsTrusted, save_locked-IsTrusted,
}
use varc.Cache.Item.Trust.Versions.{
  NoStale, IsLoaded, IsCurrent, load_once-Ends, check_version-Ends,
}

module _ (version : Fingerprint → Bytes) (a : Answers) (meta : Metadata) where
  -- What an open leaves.
  pub record IsOpened (it : CacheItem) : Type 0 where
    pub fingerprint : it.info.fingerprint ≡ meta.fingerprint
    pub size : it.info.size ≡ meta.size
    pub object : it.object ≡ some meta.fingerprint

  -- Trusted, and of the object that is opened.
  abbrev Ready : CacheItem → Type 0
  Ready it = IsTrusted version it × IsCurrent version a meta it

  make_dirs-Ends : (it : CacheItem) → Ready it → Ends (IsTrusted version) Ready (make_dirs a it)
  unfolding make_dirs
  make_dirs-Ends it r =
      unless-Ends (IsTrusted version) Ready a.make_dirs it (it, none) r.0 (r.0, λ _. r)

  -- Other ranges and another file, with bytes that the object has.
  with_file :
      (it : CacheItem) (file : Option DataFile) (fd : Bool) (rs : List Range)
      → Ready it
      → IsValid rs
      → ((v : Fingerprint) → BytesOf version v it.data_file it.info.rs → BytesOf version v file rs)
      → Ready (record it { data_file = file; fd = fd; info = record (it.info) { rs = rs } })
  with_file it file fd rs (t, c) v keeps = (
    record {
      valid = v;
      bytes = keeps it.info.fingerprint t.bytes;
      owned = t.owned;
      fetching = t.fetching;
      unloaded = λ e. cc (c.loaded);
    },
    record { loaded = c.loaded; current = keeps meta.fingerprint c.current; fetches = c.fetches },
  )

  ranges_for-IsValid :
      (file : Option DataFile) (rs : List Range) → IsValid rs → IsValid (ranges_for file rs)
  unfolding ranges_for
  ranges_for-IsValid none rs v = elim (Bool-cases (total_size rs == 0)) [
    | inl e ↦ rw e v
    | inr e ↦ rw e tt
  ]
  ranges_for-IsValid (some f) rs v = v

  same_file :
      (v : Fingerprint) (file : Option DataFile) (rs : List Range)
      → BytesOf version v file rs
      → BytesOf version v file (ranges_for file rs)
  unfolding ranges_for
  same_file v none rs b = λ f e. cc
  same_file v (some f) rs b = b

  no_file : (rs : List Range) → IsValid rs → ranges_for none rs ≡ []
  unfolding ranges_for
  no_file rs valid = elim (Bool-cases (total_size rs == 0)) [
    | inl e ↦ rw e (total_size_zero rs valid (ground arith))
    | inr e ↦ rw e
  ]

  new_file :
      (v : Fingerprint) (file : Option DataFile) (rs : List Range)
      → IsValid rs
      → BytesOf version v file rs
      → BytesOf version v (some (created file)) (ranges_for file rs)
  unfolding created
  new_file v none rs valid b = λ f e x c.
      let c' : covers [] x ≡ true = subst (λ kept. covers kept x ≡ true) (no_file rs valid) c in cc
  new_file v (some f) rs valid b = same_file v (some f) rs b

  open_fd-Ends : (it : CacheItem) → Ready it → Ends (IsTrusted version) Ready (open_fd a it)
  unfolding open_fd
  open_fd-Ends it (t, c) = elim (Bool-cases it.fd) [
    | inl e ↦ simp e (t, λ _. (t, c))
    | inr e ↦
        let rs = ranges_for it.data_file it.info.rs in
        let v : IsValid rs = ranges_for-IsValid it.data_file it.info.rs t.valid in
        let known =
          with_file it it.data_file false rs (t, c) v
            (λ w b. same_file w it.data_file it.info.rs b) in
        let opened =
          with_file it (some (created it.data_file)) true rs (t, c) v
            (λ w b. new_file w it.data_file it.info.rs t.valid b) in
        simp e
          (unless-Ends (IsTrusted version) Ready a.open_data _ _ known.0 (opened.0, λ _. opened))
  ]

  module _ (size_small : meta.size < int64_half) where
    kept : List Range → List Range
    kept rs = intersection rs (record { pos = 0; size = meta.size })

    truncated_bytes :
        (v : Fingerprint) (f : DataFile) (rs : List Range)
        → IsValid rs
        → BytesOf version v (some f) rs
        → BytesOf version v (some (truncated f meta.size)) (kept rs)
    unfolding truncated kept
    truncated_bytes v f rs valid b = λ g e x c.
        let both : (covers rs x && inside (record { pos = 0; size = meta.size }) x) ≡ true =
          sym ((intersection_lem rs (record { pos = 0; size = meta.size }) valid (omega arith)).1 x)
          ∙ c in
        let was : covers rs x ≡ true = ground arith in
        let below : ltb x meta.size ≡ true = ground arith in
        let here : (truncated f meta.size).bytes x ≡ version v x = rw below (b f refl x was) in
        let eq : truncated f meta.size ≡ g = cc (e) in
        subst (λ (h : DataFile). h.bytes x ≡ version v x) eq here

    resize_file-Ends :
        (it : CacheItem) (file : Option DataFile)
        → it.data_file ≡ file
        → Ready it
        → Ends (IsTrusted version) Ready (resize_file a meta.size file it)
    unfolding resize_file kept
    resize_file-Ends it none e r = (r.0, λ _. r)
    resize_file-Ends it (some f) e r = elim (Bool-cases (f.size == meta.size)) [
      | inl y ↦ rw y (r.0, λ _. r)
      | inr n ↦
          let valid =
            (intersection_lem it.info.rs (record { pos = 0; size = meta.size }) r.0.valid
              (omega arith)).0 in
          let done =
            with_file it (some (truncated f meta.size)) it.fd (kept it.info.rs) r valid (λ v b.
              truncated_bytes v f it.info.rs r.0.valid
                (subst (λ file. BytesOf version v file it.info.rs) e b)) in
          rw n (unless-Ends (IsTrusted version) Ready a.truncate it _ r.0 (done.0, λ _. done))
    ]

    resize-Ends : (it : CacheItem) → Ready it → Ends (IsTrusted version) Ready (resize a meta it)
    unfolding resize
    resize-Ends it r =
        unless-Ends (IsTrusted version) Ready a.stat_data it
          (resize_file a meta.size it.data_file it) r.0 (resize_file-Ends it it.data_file refl r)

    abbrev Opened : CacheItem → Type 0
    Opened it = IsTrusted version it × IsOpened it

    adopt-Opened :
        (it : CacheItem) → Ready it → Opened (adopt a meta it) × ((adopt a meta it).loaded ≡ true)
    unfolding adopt
    adopt-Opened it (t, c) = (
      (
        record {
          valid = t.valid;
          bytes = c.current;
          owned = λ v e. cc;
          fetching = c.fetches;
          unloaded = λ e. cc (c.loaded);
        },
        record { fingerprint = refl; size = refl; object = refl },
      ),
      c.loaded,
    )

    create_for-IsOpened :
        (it : CacheItem) (d o : Option Fingerprint)
        → IsOpened it
        → IsOpened (create_for it d o) × ((create_for it d o).loaded ≡ it.loaded)
    unfolding create_for
    create_for-IsOpened it (some v) o r = (r, refl)
    create_for-IsOpened it none none r = (r, refl)
    create_for-IsOpened it none (some v) r = elim (Bool-cases (le64 it.info.size 0)) [
      | inl e ↦ rw e (r, refl)
      | inr e ↦
          rw e (record { fingerprint = r.fingerprint; size = r.size; object = r.object }, refl)
    ]

    saved-IsOpened : (it : CacheItem) (e : Option ItemError) → IsOpened it → IsOpened (saved it e).0
    unfolding saved
    saved-IsOpened it none r = record {
      fingerprint = r.fingerprint;
      size = r.size;
      object = r.object;
    }
    saved-IsOpened it (some e) r = r

    publish-Ends : (it : CacheItem) → Ready it → Ends (IsTrusted version) Opened (publish a meta it)
    unfolding publish create_downloaders save_locked
    publish-Ends it r =
        let ad = adopt-Opened it r in
        let it' = adopt a meta it in
        let made = create_for-IsOpened it' it'.downloaders it'.object ad.0.1 in
        let loaded : (create_for it' it'.downloaders it'.object).loaded ≡ true = made.1 ∙ ad.1 in
        let t =
          save_locked-IsTrusted version a _ (create_downloaders-IsTrusted version it' ad.0.0 ad.1)
            loaded in
        (t, λ _. (t, saved-IsOpened _ (first_error a.save) made.0))

    count_open-Ends :
        (it : CacheItem) → Opened it → Ends (IsTrusted version) IsOpened (count_open it)
    unfolding count_open
    count_open-Ends it (t, o) = (
      with_counts version it (add64 it.opens 1) it.pending_accesses it.info.atime it.grace_timer
          it.being_reset t,
      λ _. record { fingerprint = o.fingerprint; size = o.size; object = o.object },
    )

    -- `openLocked` of an item whose present bytes are those of its fingerprint leaves such an item,
    -- also where it fails: bytes of another fingerprint are dropped, or the open is refused. Without an
    -- error the item has the object's size and fingerprint, so its present bytes are those of that fingerprint.
    -- Objects without a validator share the fingerprint `none` and count as one content here.
    -- The conditions are that the size is an int64 that is not negative, that others leave such an item, keep it loaded and
    -- make no scheduler while the mutex is released to close the old one, and that a scheduler that runs with
    -- nothing cached fetches the same object.
    pub open_locked-IsTrusted :
        (it : CacheItem)
        → IsQuiet version a.meanwhile
        → IsTrusted version it
        → NoStale meta it
        → Ends (IsTrusted version) IsOpened (open_locked a meta it)
    unfolding open_locked
    open_locked-IsTrusted it q t s =
        let P = IsTrusted version in
        let start : CacheItem = record it { grace_timer = false } in
        let t' : IsTrusted version start =
          with_counts version it it.opens it.pending_accesses it.info.atime false it.being_reset
            t in
        >>=-Ends P Opened IsOpened _ count_open
          (>>=-Ends P Ready Opened _ (publish a meta)
            (>>=-Ends P Ready Ready _ (resize a meta)
              (>>=-Ends P Ready Ready _ (open_fd a)
                (>>=-Ends P (IsCurrent version a meta) Ready _ (make_dirs a)
                  (>>=-Ends P (IsLoaded version a meta) (IsCurrent version a meta)
                    (load_once a start) (check_version a meta)
                    (load_once-Ends version a meta start t' s)
                    (λ x p l. check_version-Ends version a meta x q p l))
                  (λ x p c. make_dirs-Ends x (p, c)))
                (λ x p r. open_fd-Ends x r))
              (λ x p r. resize-Ends x r))
            (λ x p r. publish-Ends x r))
          (λ x p o. count_open-Ends x o)
