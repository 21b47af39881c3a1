-- ===== src/Cache/Item/Trust/Closes.antt =====
-- `release`, `closeAfterGrace` and `resetForSpace` keep an item trusted (cache/item.go).
use varc.Base.{
  ℕ, ◌≡◌, ◌∙◌, sym, refl, subst, inl, inr, Bool, true, false, not, ◌&&◌, ◌||◌, Option, none, some,
  [], ◌==◌, lt64, add64, sub64, Bool-cases,
}
use varc.Ranges.{total_size}
use varc.Ranges.Valid.{covers}
use varc.Cache.Write.{Bytes}
use varc.Cache.Item.{
  Fingerprint, missing, DataFile, CacheItem, ItemError, failed, Answers, unless, first_error, saved,
  save_locked, close_fd_locked, close_downloaders, remove_data_file, remove_meta_file,
}
use varc.Cache.Item.Open.{created, truncated}
use varc.Cache.Item.Release.{actual_close, pre_access, release_held, release, close_after_grace}
use varc.Cache.Item.Space.{
  Reset, remove_files, forget, finish_reset, give_up_reset, refused, make_scheduler, open_again,
  truncate_file, truncate_again, remake, rebuild, stop_on, reset_open, reset_for_space,
}
use varc.Cache.Item.Trust.{
  MetaTrusted, IsTrusted, IsQuiet, Ends, >>=-Ends, unless-Ends, with_counts,
  close_downloaders-IsTrusted, save_locked-IsTrusted, create_downloaders-IsTrusted,
}
use varc.Cache.Item.Trust.Resets.{IsIdle, Good, close_fd-Good, remove_data-Good, remove_meta-Good}

module _ (version : Fingerprint → Bytes) (a : Answers) (quiet : IsQuiet version a.meanwhile) where
  stopped-Good :
      (it : CacheItem)
      → IsTrusted version it
      → it.loaded ≡ true
      → Good version (close_downloaders a it).0
  stopped-Good it t l =
      let c = close_downloaders-IsTrusted version a it quiet t in
      (c.0, record { loaded = c.2 l; idle = c.1 })

  actual_close-IsTrusted :
      (it : CacheItem)
      → IsTrusted version it
      → it.loaded ≡ true
      → IsTrusted version (actual_close a it).0
  unfolding actual_close
  actual_close-IsTrusted it t l =
      let g = (close_fd-Good version a (close_downloaders a it).0 (stopped-Good it t l)).0 in
      save_locked-IsTrusted version a _ g.0 g.1.loaded

  release_held-IsTrusted :
      (caching : Bool) (it : CacheItem)
      → IsTrusted version it
      → it.loaded ≡ true
      → IsTrusted version (release_held a caching it).0
  unfolding release_held
  release_held-IsTrusted caching it t l =
      let left : CacheItem = record it {
        info = record (it.info) { atime = a.now };
        opens = sub64 it.opens 1;
      } in
      let t' : IsTrusted version left =
        with_counts version it (sub64 it.opens 1) it.pending_accesses a.now it.grace_timer
          it.being_reset t in
      elim (Bool-cases (lt64 (sub64 it.opens 1) 0)) [
        | inl e ↦ rw e t'
        | inr e ↦ rw e (elim (Bool-cases (lt64 0 (sub64 it.opens 1))) [
          | inl f ↦ rw f t'
          | inr f ↦ rw f (elim (Bool-cases caching) [
            | inl c ↦ rw c (
                with_counts version left left.opens left.pending_accesses left.info.atime true
                  left.being_reset t')
            | inr c ↦ rw c (actual_close-IsTrusted left t' l)
          ])
        ])
      ]

  -- A `release` of a loaded item keeps it trusted, with or without an error.
  pub release-IsTrusted :
      (caching : Bool) (it : CacheItem)
      → IsTrusted version it
      → it.loaded ≡ true
      → IsTrusted version (release a caching it).0
  unfolding release
  release-IsTrusted caching it t l =
      let t' =
        with_counts version it it.opens (add64 it.pending_accesses 1) it.info.atime it.grace_timer
          it.being_reset t in
      let r = (release_held a caching (pre_access it)).0 in
      with_counts version r r.opens (sub64 r.pending_accesses 1) r.info.atime r.grace_timer
        r.being_reset (release_held-IsTrusted caching (pre_access it) t' l)

  pub close_after_grace-IsTrusted :
      (it : CacheItem)
      → IsTrusted version it
      → it.loaded ≡ true
      → IsTrusted version (close_after_grace a it)
  unfolding close_after_grace
  close_after_grace-IsTrusted it t l = elim (Bool-cases (lt64 0 it.opens || not it.grace_timer)) [
    | inl e ↦ rw e t
    | inr e ↦ simp e (
        actual_close-IsTrusted (record it { grace_timer = false })
          (with_counts version it it.opens it.pending_accesses it.info.atime false it.being_reset t)
          l)
  ]

  remove_files-Good : (it : CacheItem) → Good version it → Good version (remove_files a it)
  unfolding remove_files
  remove_files-Good it g = (remove_meta-Good version a _ (remove_data-Good version a it g).0).0

  -- An idle item with no ranges: its files may hold anything.
  abbrev Bare : CacheItem → Type 0
  Bare it = IsTrusted version it × IsIdle it × (it.info.rs ≡ [])

  with_any_file :
      (it : CacheItem) (file : Option DataFile) (fd : Bool)
      → Bare it
      → Bare (record it { data_file = file; fd = fd })
  with_any_file it file fd (t, i, e) = (
    record {
      valid = t.valid;
      bytes = λ f _ x c. let c' : covers [] x ≡ true = subst (λ rs. covers rs x ≡ true) e c in cc;
      owned = t.owned;
      fetching = t.fetching;
      unloaded = λ n. cc (i.loaded);
    },
    record { loaded = i.loaded; idle = i.idle },
    e,
  )

  open_again-Ends : (it : CacheItem) → Bare it → Ends (IsTrusted version) Bare (open_again a it)
  unfolding open_again
  open_again-Ends it b =
      let done = with_any_file it (some (created it.data_file)) it.fd b in
      unless-Ends (IsTrusted version) Bare a.open_data it _ b.0 (done.0, λ _. done)

  truncate_file-Ends :
      (file : Option DataFile) (it : CacheItem)
      → Bare it
      → Ends (IsTrusted version) Bare (truncate_file a file it)
  unfolding truncate_file
  truncate_file-Ends none it b = (b.0, λ _. b)
  truncate_file-Ends (some f) it b =
      let done = with_any_file it (some (truncated f it.info.size)) true b in
      unless-Ends (IsTrusted version) Bare a.truncate it _ b.0 (done.0, λ _. done)

  save-Ends :
      (it : CacheItem)
      → Bare it
      → Ends (IsTrusted version) (λ x. IsTrusted version x × (x.loaded ≡ true)) (save_locked a it)
  unfolding save_locked saved
  save-Ends it (t, i, e) =
      let t' = save_locked-IsTrusted version a it t i.loaded in
      (t', λ _. (t', saved_loaded it (first_error a.save) ∙ i.loaded))
    where
      saved_loaded : (x : CacheItem) (e : Option ItemError) → (saved x e).0.loaded ≡ x.loaded
      saved_loaded x none = refl
      saved_loaded x (some e) = refl

  remake-IsTrusted : (it : CacheItem) → Bare it → IsTrusted version (remake a it).0
  unfolding remake truncate_again make_scheduler
  remake-IsTrusted it b =
      let P = IsTrusted version in
      (>>=-Ends P (λ x. IsTrusted version x × (x.loaded ≡ true)) P _ make_scheduler
        (>>=-Ends P Bare (λ x. IsTrusted version x × (x.loaded ≡ true)) _ (save_locked a)
          (>>=-Ends P Bare Bare _ (truncate_again a)
            (>>=-Ends P Bare Bare _ (open_again a)
              (unless-Ends P Bare a.make_dirs it (it, none) b.0 (b.0, λ _. b))
              (λ x p c. open_again-Ends x c))
            (λ x p c. truncate_file-Ends x.data_file x c))
          (λ x p c. save-Ends x c))
        (λ x p c. let t = create_downloaders-IsTrusted version x p c.1 in (t, λ _. t))).0

  no_reset :
      (it : CacheItem)
      → IsTrusted version it
      → IsTrusted version (record it { being_reset = false })
  no_reset it =
      with_counts version it it.opens it.pending_accesses it.info.atime it.grace_timer false

  finish_reset-IsTrusted :
      (no_space : ℕ → Bool) (e : ItemError) (it : CacheItem)
      → IsTrusted version it
      → IsTrusted version (finish_reset no_space e it)
  unfolding finish_reset
  finish_reset-IsTrusted no_space (failed e) it t = elim (Bool-cases (no_space e)) [
    | inl y ↦ rw y t
    | inr n ↦ rw n (no_reset it t)
  ]
  finish_reset-IsTrusted no_space _ it t = no_reset it t

  refused-IsTrusted :
      (no_space : ℕ → Bool) (freed : ℕ) (r : CacheItem × Option ItemError)
      → IsTrusted version r.0
      → IsTrusted version (refused no_space freed r).0
  unfolding refused give_up_reset
  refused-IsTrusted no_space freed (it, none) t = no_reset it t
  refused-IsTrusted no_space freed (it, some e) t = finish_reset-IsTrusted no_space e it t

  stop_on-IsTrusted :
      (e : Option ItemError) (it : CacheItem) (rest : CacheItem × Reset)
      → IsTrusted version it
      → IsTrusted version rest.0
      → IsTrusted version (stop_on e it rest).0
  unfolding stop_on
  stop_on-IsTrusted none it rest t r = r
  stop_on-IsTrusted (some e) it rest t r = no_reset it t

  reset_open-IsTrusted :
      (no_space : ℕ → Bool) (it : CacheItem)
      → IsTrusted version it
      → it.loaded ≡ true
      → IsTrusted version (reset_open a no_space it).0
  unfolding reset_open rebuild
  reset_open-IsTrusted no_space it t l =
      let start : CacheItem = record it { being_reset = true } in
      let t' =
        with_counts version it it.opens it.pending_accesses it.info.atime it.grace_timer true t in
      let stopped = close_downloaders a start in
      let closed = close_fd_locked a stopped.0 in
      let g = (close_fd-Good version a stopped.0 (stopped-Good start t' l)).0 in
      let gone = remove_files a closed.0 in
      let left = remove_files-Good closed.0 g in
      let bare : Bare (record gone { info = record (gone.info) { rs = [] } }) = (
        record {
          valid = tt;
          bytes = λ f _ x c. cc;
          owned = left.0.owned;
          fetching = left.0.fetching;
          unloaded = λ n. cc (left.1.loaded);
        },
        record { loaded = left.1.loaded; idle = left.1.idle },
        refl,
      ) in
      let rest =
        refused-IsTrusted no_space (total_size closed.0.info.rs) _ (remake-IsTrusted _ bare) in
      elim (Bool-cases stopped.0.fd) [
        | inl e ↦ rw e (stop_on-IsTrusted _ closed.0 _ g.0 rest)
        | inr e ↦ rw e rest
      ]

  removed_meta : (it : CacheItem) → a.remove_meta ≡ none → (remove_files a it).meta_file ≡ missing
  unfolding remove_files remove_meta_file unless
  removed_meta it m =
      let x = (remove_data_file a it).0 in
      subst (λ e. (unless e x (record x { meta_file = missing }, none)).0.meta_file ≡ missing)
        (sym m) refl

  forget-IsTrusted :
      (freed : ℕ) (r : CacheItem × Option ItemError)
      → a.remove_meta ≡ none
      → Good version r.0
      → IsTrusted version (forget a freed r).0
  unfolding forget
  forget-IsTrusted freed (it, some e) m g = g.0
  forget-IsTrusted freed (it, none) m g =
      let c = (close_fd-Good version a it g).0 in
      let left = remove_files-Good (close_fd_locked a it).0 c in
      record {
        valid = tt;
        bytes = λ f _ x h. cc;
        owned = λ v e. cc;
        fetching = λ v e. cc (left.1.idle);
        unloaded = λ _. record {
          no_object = refl;
          no_downloaders = left.1.idle;
          meta =
              subst (MetaTrusted version (remove_files a (close_fd_locked a it).0).data_file)
                (sym (removed_meta (close_fd_locked a it).0 m)) tt;
        };
      }

  -- `resetForSpace` of a loaded item keeps it trusted, whatever fails; that the metadata file can be
  -- removed is a condition, since an item that is forgotten is loaded from it again.
  pub reset_for_space-IsTrusted :
      (no_space : ℕ → Bool) (it : CacheItem)
      → a.remove_meta ≡ none
      → IsTrusted version it
      → it.loaded ≡ true
      → IsTrusted version (reset_for_space a no_space it).0
  unfolding reset_for_space
  reset_for_space-IsTrusted no_space it m t l =
      elim (Bool-cases ((it.opens == 0) && not it.grace_timer)) [
        | inl e ↦ rw e (
            forget-IsTrusted (total_size it.info.rs) (close_downloaders a it) m
              (stopped-Good it t l))
        | inr e ↦ rw e (elim (Bool-cases (it.grace_timer || lt64 0 it.pending_accesses)) [
          | inl f ↦ rw f t
          | inr f ↦ rw f (elim (Bool-cases ((total_size it.info.rs == 0) && not it.being_reset)) [
            | inl h ↦ rw h t
            | inr h ↦ rw h (reset_open-IsTrusted no_space it t l)
          ])
        ])
      ]
