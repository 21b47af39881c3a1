-- ===== src/Cache/Clean.antt =====
-- cache/cache.go: the cleaner. The items are a store with the operations that the cleaner uses; a
-- time and a size is an int64, and a duration that is not positive is no limit.
pub mod Quotas
mod Tests
use varc.Base.{
  ℕ, ◌+◌, Bool, true, false, not, ◌&&◌, ◌||◌, Option, none, some, List, [], ◌∷◌, ◌==◌,
  if◌then◌else◌, add64, sub64, lt64, le64, leb,
}

-- `Options`, as far as the cleaner reads them.
pub record Limits : Type 0 where
  pub max_age : ℕ
  pub max_size : ℕ
  pub min_free : ℕ

-- The results of `resetForSpace`; of the error it only matters whether the disk is full.
pub data CleanError : Type 0 where
  disk_full other_error : CleanError

pub record Freed : Type 0 where
  pub removed : Bool
  pub freed : ℕ
  pub err : Option CleanError

-- `cacheCandidate`, with the item's key.
pub record Candidate : Type 0 where
  pub key : ℕ
  pub atime : ℕ
  pub size : ℕ
  pub opens : ℕ
  pub grace : Bool

-- The cache's items: what the snapshot sees, `resetForSpace` by key, the deletion from the map of an
-- item that is gone, whether the map has a key, the failed resets, and the free space (`none` if it
-- is not known).
pub record Store {ℓ} (S : Type ℓ) : Type ℓ where
  pub candidates : S → List Candidate
  pub reset : S → ℕ → S × Freed
  pub delete : S → ℕ → S
  pub has : S → ℕ → Bool
  pub failed : S → List ℕ
  pub remember : S → ℕ → CleanError → S
  pub forgive : S → ℕ → S
  pub available : S → Option ℕ
  pub sort : List Candidate → List Candidate

-- The second result of `snapshotCandidates`.
unfoldable pub sum_used : List Candidate → ℕ → ℕ
sum_used [] used = used
sum_used (c ∷ cs) used = sum_used cs (add64 used c.size)

-- What a loop changes: the store, `used`, and the candidates, some with their size set to 0.
pub record Cleaning {ℓ} (S : Type ℓ) : Type ℓ where
  pub store : S
  pub used : ℕ
  pub items : List Candidate

-- Whether `removeUnused` deletes the item.
unfoldable pub is_gone : Option CleanError → Bool → Bool
is_gone none removed = removed
is_gone (some e) removed = false

unfoldable pub is_unused : Candidate → Bool
is_unused c = (c.opens == 0) && not c.grace

module _ {ℓ} {S : Type ℓ} (st : Store S) (opt : Limits) where
  -- `minFreeSpaceQuotaOK`, by the space that is available.
  unfoldable pub enough_free : Option ℕ → Bool
  enough_free none = true
  enough_free (some free) = le64 opt.min_free 0 || leb opt.min_free free

  -- `quotasOK`
  unfoldable pub quotas_ok : S → ℕ → Bool
  quotas_ok s used = (le64 opt.max_size 0 || le64 used opt.max_size) && enough_free (st.available s)

  -- `removeUnused`, by the results of `resetForSpace`.
  unfoldable pub removed_unused : ℕ → S × Freed → S × Option ℕ
  removed_unused key (s, r) =
      if is_gone r.err r.removed then (st.delete s key, some r.freed) else (s, none)

  unfoldable pub remove_unused : S → ℕ → S × Option ℕ
  unfolding removed_unused
  remove_unused s key = removed_unused key (st.reset s key)

  -- A candidate that was removed is marked by size 0.
  unfoldable pub after_removal : Candidate → ℕ → S × Option ℕ → S × ℕ × Candidate
  after_removal c used (s, none) = (s, used, c)
  after_removal c used (s, some freed) = (s, sub64 used freed, record c { size = 0 })

  unfoldable pub try_remove : S → ℕ → Candidate → S × ℕ × Candidate
  try_remove s used c = after_removal c used (remove_unused s c.key)

  -- The loop over the candidates that are too old; `cutoff` is the time before which they are.
  unfoldable pub age_pass : ℕ → List Candidate → S → ℕ → Cleaning S
  age_pass cutoff [] s used = record { store = s; used = used; items = [] }
  age_pass cutoff (c ∷ cs) s used =
      let now = if is_unused c && lt64 c.atime cutoff then try_remove s used c else (s, used, c) in
      let rest = age_pass cutoff cs now.0 now.1 in record rest { items = now.2 ∷ rest.items }

  -- The loop that removes what is not in use, until the quotas hold.
  unfoldable pub unused_pass : List Candidate → S → ℕ → Cleaning S
  unused_pass [] s used = record { store = s; used = used; items = [] }
  unused_pass (c ∷ cs) s used =
      let now = if (c.size == 0) || not (is_unused c) then (s, used, c) else try_remove s used c in
      let rest = unused_pass cs now.0 now.1 in
      if quotas_ok s used
      then record { store = s; used = used; items = c ∷ cs }
      else record rest { items = now.2 ∷ rest.items }

  -- One reset in the last loop, by its error.
  unfoldable pub note_reset : ℕ → S → Bool → Option CleanError → S
  note_reset key s removed (some e) = st.remember s key e
  note_reset key s removed none = if removed then st.delete s key else s

  unfoldable pub after_reset : ℕ → ℕ → S × Freed → S × ℕ
  unfolding note_reset
  after_reset key used (s, r) = (note_reset key s r.removed r.err, sub64 used r.freed)

  -- The loop that takes the bytes of any item, until the quotas hold.
  unfoldable pub open_pass : List Candidate → S → ℕ → S × ℕ
  open_pass [] s used = (s, used)
  open_pass (c ∷ cs) s used =
      let next = if c.size == 0 then (s, used) else after_reset c.key used (st.reset s c.key) in
      let rest = open_pass cs next.0 next.1 in if quotas_ok s used then (s, used) else rest

  -- One retry of `retryFailedResets`.
  unfoldable pub note_retry : ℕ → S → Option CleanError → S
  note_retry key s none = st.forgive s key
  note_retry key s (some disk_full) = st.remember s key disk_full
  note_retry key s (some other_error) = st.forgive s key

  unfoldable pub after_retry : ℕ → S × Freed → S
  unfolding note_retry
  after_retry key (s, r) = note_retry key (if r.removed then st.delete s key else s) r.err

  -- The keys of failed resets that the map has; the others are dropped.
  unfoldable pub retries : List ℕ → S → S × List ℕ
  retries [] s = (s, [])
  retries (key ∷ keys) s =
      let here = st.has s key in
      let rest = retries keys (if here then s else st.forgive s key) in
      (rest.0, if here then key ∷ rest.1 else rest.1)

  unfoldable pub retry_pass : List ℕ → S → S
  retry_pass [] s = s
  retry_pass (key ∷ keys) s = retry_pass keys (after_retry key (st.reset s key))

  unfoldable pub retry_failed : S → S
  unfolding retries retry_pass
  retry_failed s = let (s', keys) = retries (st.failed s) s in retry_pass keys s'

  -- `clean` after the age pass, while a quota is exceeded.
  unfoldable pub shrink : Cleaning S → S × ℕ
  shrink w =
      let p = unused_pass (st.sort w.items) w.store w.used in
      if quotas_ok w.store w.used then (w.store, w.used) else open_pass p.items p.store p.used

  -- `clean` at time `now`, up to the release of those who wait: the store and `used` by then.
  unfoldable pub clean_items : ℕ → S → S × ℕ
  clean_items now s =
      let items = st.candidates s in
      let used = sum_used items 0 in
      let aged =
        if lt64 0 opt.max_age
        then age_pass (sub64 now opt.max_age) items s used
        else record { store = s; used = used; items = items } in
      shrink aged

  unfoldable pub have_quotas : Bool
  have_quotas = lt64 0 opt.max_size || lt64 0 opt.min_free

  unfoldable pub clean : ℕ → S → S
  clean now s = let done = (clean_items now s).0 in if have_quotas then retry_failed done else done
