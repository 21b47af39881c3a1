-- ===== src/Cache/Item/Trust/Resets.antt =====
-- `resetLocked` keeps an item trusted (cache/item.go).
use varc.Base.{◌≡◌, refl, inl, inr, true, none, [], Bool-cases}
use varc.Cache.Write.{Bytes}
use varc.Cache.Item.{
  Fingerprint, missing, CacheItem, Answers, fresh_info, close_fd_locked, close_downloaders,
  remove_data_file, remove_meta_file, make_fresh, reset_locked,
}
use varc.Cache.Item.Trust.{
  IsTrusted, IsQuiet, Ends, >>=-Ends, unless-Ends, emptied-IsTrusted, close_downloaders-IsTrusted,
  close_fd_locked-IsTrusted,
}

-- A loaded item with no scheduler.
pub record IsIdle (it : CacheItem) : Type 0 where
  pub loaded : it.loaded ≡ true
  pub idle : it.downloaders ≡ none

module _ (version : Fingerprint → Bytes) where
  abbrev pub Good : CacheItem → Type 0
  Good it = IsTrusted version it × IsIdle it

  pub close_fd-Good :
      (a : Answers) (it : CacheItem) → Good it → Ends Good Good (close_fd_locked a it)
  unfolding close_fd_locked
  close_fd-Good a it (t, i) =
      let g : Good (close_fd_locked a it).0 = (
        close_fd_locked-IsTrusted version a it t i.loaded,
        elim (Bool-cases it.fd) [
          | inl e ↦ simp e (record { loaded = i.loaded; idle = i.idle })
          | inr e ↦ simp e i
        ],
      ) in
      (g, λ _. g)

  pub remove_data-Good :
      (a : Answers) (it : CacheItem) → Good it → Ends Good Good (remove_data_file a it)
  unfolding remove_data_file
  remove_data-Good a it (t, i) =
      let g : Good (record it { data_file = none }) = (
        record {
          valid = t.valid;
          bytes = λ f e. cc;
          owned = t.owned;
          fetching = t.fetching;
          unloaded = λ e. cc (i.loaded);
        },
        record { loaded = i.loaded; idle = i.idle },
      ) in
      unless-Ends Good Good a.remove_data it (record it { data_file = none }, none) (t, i)
        (g, λ _. g)

  pub remove_meta-Good :
      (a : Answers) (it : CacheItem) → Good it → Ends Good Good (remove_meta_file a it)
  unfolding remove_meta_file
  remove_meta-Good a it (t, i) =
      let g : Good (record it { meta_file = missing }) = (
        record {
          valid = t.valid;
          bytes = t.bytes;
          owned = t.owned;
          fetching = t.fetching;
          unloaded = λ e. cc (i.loaded);
        },
        record { loaded = i.loaded; idle = i.idle },
      ) in
      unless-Ends Good Good a.remove_meta it (record it { meta_file = missing }, none) (t, i)
        (g, λ _. g)

  -- Trusted, with no ranges.
  abbrev pub Emptied : CacheItem → Type 0
  Emptied it = IsIdle it × (it.info.rs ≡ [])

  make_fresh-Good : (a : Answers) (it : CacheItem) → Good it → Ends Good Emptied (make_fresh a it)
  unfolding make_fresh fresh_info
  make_fresh-Good a it (t, i) =
      let done : CacheItem = record it { info = fresh_info it.key a.now; object = none } in
      let idle : IsIdle done = record { loaded = i.loaded; idle = i.idle } in
      ((emptied-IsTrusted version done refl refl i.idle i.loaded, idle), λ _. (idle, refl))

  -- `resetLocked` of a loaded item leaves it trusted, and without an error it leaves nothing cached.
  pub reset_locked-Good :
      (a : Answers) (it : CacheItem)
      → IsQuiet version a.meanwhile
      → IsTrusted version it
      → it.loaded ≡ true
      → Ends Good Emptied (reset_locked a it)
  unfolding reset_locked
  reset_locked-Good a it q t l =
      let c = close_downloaders-IsTrusted version a it q t in
      let g : Good (close_downloaders a it).0 = (c.0, record { loaded = c.2 l; idle = c.1 }) in
      >>=-Ends Good Good Emptied _ (make_fresh a)
        (>>=-Ends Good Good Good _ (remove_meta_file a)
          (>>=-Ends Good Good Good _ (remove_data_file a)
            (>>=-Ends Good Good Good (close_downloaders a it) (close_fd_locked a) (g, λ _. g)
              (λ x p _. close_fd-Good a x p))
            (λ x p _. remove_data-Good a x p))
          (λ x p _. remove_meta-Good a x p))
        (λ x p _. make_fresh-Good a x p)
