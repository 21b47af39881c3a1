-- ===== src/Cache/Item/Trust.antt =====
-- What an item's bytes are worth (cache/item.go): those recorded as present are the bytes of the
-- object with the item's fingerprint.
pub mod Resets
pub mod Versions
pub mod Opens
pub mod Closes
pub mod Runs
use varc.Base.{
  ℕ, ◌+◌, ◌<◌, ◌≤◌, ◌≡◌, ◌≢◌, ◌∙◌, sym, refl, subst, inl, inr, arith, Bool, true, false, not, ◌&&◌,
  ◌||◌, Option, none, some, List, [], ◌∷◌, ltb, leb, ◌==◌, if◌then◌else◌, lt64, le64, int64_half,
  Bool-cases, Option-cases, add64,
}
use varc.Ranges.{Range, total_size, intersection}
use varc.Ranges.Valid.{IsValid, covers}
use varc.Cache.Write.{Bytes}
use varc.Cache.Item.{
  Fingerprint, same, Info, MetaFile, missing, corrupt, holds, DataFile, CacheItem, ItemError,
  Answers, fresh_info, create_downloaders, load_from, first_error, saved, save_locked,
  close_fd_locked, unless, close_these, create_for, close_downloaders, ◌>>=◌,
}

-- The present bytes of a file are those of the object with the fingerprint; `version` is the content
-- that a fingerprint stands for.
abbrev pub BytesOf : (Fingerprint → Bytes) → Fingerprint → Option DataFile → List Range → Type 0
BytesOf version v file rs =
    (f : DataFile) → file ≡ some f → (x : ℕ) → covers rs x ≡ true → f.bytes x ≡ version v x

abbrev pub MetaTrusted : (Fingerprint → Bytes) → Option DataFile → MetaFile → Type 0
MetaTrusted version file missing = Unit {0}
MetaTrusted version file corrupt = Unit {0}
MetaTrusted version file (holds i) = IsValid i.rs × BytesOf version i.fingerprint file i.rs

-- An item that has not been loaded: its files can be trusted.
pub record IsUnloaded (version : Fingerprint → Bytes) (it : CacheItem) : Type 0 where
  pub no_object : it.object ≡ none
  pub no_downloaders : it.downloaders ≡ none
  pub meta : MetaTrusted version it.data_file it.meta_file

pub record IsTrusted (version : Fingerprint → Bytes) (it : CacheItem) : Type 0 where
  pub valid : IsValid it.info.rs
  pub bytes : BytesOf version it.info.fingerprint it.data_file it.info.rs
  pub owned : (v : Fingerprint) → it.object ≡ some v → it.info.fingerprint ≡ v
  pub fetching : (v : Fingerprint) → it.downloaders ≡ some v → it.info.fingerprint ≡ v
  pub unloaded : it.loaded ≡ false → IsUnloaded version it

-- What others do while the mutex is released: the item stays trusted, and loaded if it is, and nobody
-- makes a scheduler.
pub record IsQuiet (version : Fingerprint → Bytes) (m : CacheItem → CacheItem) : Type 0 where
  pub keeps : (it : CacheItem) → IsTrusted version it → IsTrusted version (m it)
  pub idle : (it : CacheItem) → it.downloaders ≡ none → (m it).downloaders ≡ none
  pub stays : (it : CacheItem) → it.loaded ≡ true → (m it).loaded ≡ true

-- A step leaves `P`, and `Q` too where it has no error.
abbrev pub Ends :
    (CacheItem → Type 0) → (CacheItem → Type 0) → CacheItem × Option ItemError → Type 0
Ends P Q r = P r.0 × (r.1 ≡ none → Q r.0)

pub >>=-Ends :
    (P Q R : CacheItem → Type 0) (r : CacheItem × Option ItemError)
    (f : CacheItem → CacheItem × Option ItemError)
    → Ends P Q r
    → ((it : CacheItem) → P it → Q it → Ends P R (f it))
    → Ends P R (r >>= f)
>>=-Ends P Q R (it, none) f e h = h it e.0 (e.1 refl)
>>=-Ends P Q R (it, some x) f e h = (e.0, λ m. cc)

pub unless-Ends :
    (P Q : CacheItem → Type 0) (e : Option ℕ) (it : CacheItem) (next : CacheItem × Option ItemError)
    → P it
    → Ends P Q next
    → Ends P Q (unless e it next)
unfolding unless
unless-Ends P Q none it next p n = n
unless-Ends P Q (some x) it next p n = (p, λ m. cc)

module _ (version : Fingerprint → Bytes) where
  -- The counts, the flags and the time of access do not matter.
  pub with_counts :
      (it : CacheItem) (opens pending atime : ℕ) (grace being_reset : Bool)
      → IsTrusted version it
      → IsTrusted version (record it {
        opens = opens;
        pending_accesses = pending;
        grace_timer = grace;
        being_reset = being_reset;
        info = record (it.info) { atime = atime };
      })
  with_counts it opens pending atime grace being_reset t = record {
    valid = t.valid;
    bytes = t.bytes;
    owned = t.owned;
    fetching = t.fetching;
    unloaded = λ e.
        let u = t.unloaded e in
        record { no_object = u.no_object; no_downloaders = u.no_downloaders; meta = u.meta };
  }

  pub emptied-IsTrusted :
      (it : CacheItem)
      → it.info.rs ≡ []
      → it.object ≡ none
      → it.downloaders ≡ none
      → it.loaded ≡ true
      → IsTrusted version it
  emptied-IsTrusted it empty o d l = record {
    valid = rw empty tt;
    bytes = λ f _ x c. let c' : covers [] x ≡ true = subst (λ rs. covers rs x ≡ true) empty c in cc;
    owned = λ v e. cc;
    fetching = λ v e. cc;
    unloaded = λ e. cc;
  }

  close_these-IsTrusted :
      (a : Answers) (it : CacheItem) (d : Option Fingerprint)
      → it.downloaders ≡ d
      → IsQuiet version a.meanwhile
      → IsTrusted version it
      → IsTrusted version (close_these a it d).0
        × ((close_these a it d).0.downloaders ≡ none)
        × (it.loaded ≡ true → (close_these a it d).0.loaded ≡ true)
  unfolding close_these
  close_these-IsTrusted a it none n q t = (t, n, λ l. l)
  close_these-IsTrusted a it (some v) n q t =
      let it' : CacheItem = record it { downloaders = none } in
      let t' : IsTrusted version it' = record {
        valid = t.valid;
        bytes = t.bytes;
        owned = t.owned;
        fetching = λ w e. cc;
        unloaded = λ e. cc ((t.unloaded e).no_downloaders);
      } in
      (q.keeps it' t', q.idle it' refl, λ l. q.stays it' l)

  pub close_downloaders-IsTrusted :
      (a : Answers) (it : CacheItem)
      → IsQuiet version a.meanwhile
      → IsTrusted version it
      → IsTrusted version (close_downloaders a it).0
        × ((close_downloaders a it).0.downloaders ≡ none)
        × (it.loaded ≡ true → (close_downloaders a it).0.loaded ≡ true)
  unfolding close_downloaders
  close_downloaders-IsTrusted a it = close_these-IsTrusted a it it.downloaders refl

  pub save_locked-IsTrusted :
      (a : Answers) (it : CacheItem)
      → IsTrusted version it
      → it.loaded ≡ true
      → IsTrusted version (save_locked a it).0
  unfolding save_locked saved
  save_locked-IsTrusted a it t l = elim (Option-cases (first_error a.save)) [
    | inl n ↦
        rw (n, saved)
          (record {
            valid = t.valid;
            bytes = t.bytes;
            owned = t.owned;
            fetching = t.fetching;
            unloaded = λ e. cc;
          })
    | inr (e, n) ↦ rw (n, saved) t
  ]

  pub close_fd_locked-IsTrusted :
      (a : Answers) (it : CacheItem)
      → IsTrusted version it
      → it.loaded ≡ true
      → IsTrusted version (close_fd_locked a it).0
  unfolding close_fd_locked
  close_fd_locked-IsTrusted a it t l = elim (Bool-cases it.fd) [
    | inl e ↦ simp e (record {
      valid = t.valid;
      bytes = t.bytes;
      owned = t.owned;
      fetching = t.fetching;
      unloaded = λ m. cc;
    })
    | inr e ↦ simp e t
  ]

  create_for-IsTrusted :
      (it : CacheItem) (d o : Option Fingerprint)
      → it.object ≡ o
      → IsTrusted version it
      → it.loaded ≡ true
      → IsTrusted version (create_for it d o)
  unfolding create_for
  create_for-IsTrusted it (some v) o m t l = t
  create_for-IsTrusted it none none m t l = t
  create_for-IsTrusted it none (some v) m t l = elim (Bool-cases (le64 it.info.size 0)) [
    | inl s ↦ rw s t
    | inr s ↦ rw s (record {
      valid = t.valid;
      bytes = t.bytes;
      owned = t.owned;
      fetching = λ w e. t.owned w (m ∙ e);
      unloaded = λ e. cc;
    })
  ]

  pub create_downloaders-IsTrusted :
      (it : CacheItem)
      → IsTrusted version it
      → it.loaded ≡ true
      → IsTrusted version (create_downloaders it)
  unfolding create_downloaders
  create_downloaders-IsTrusted it = create_for-IsTrusted it it.downloaders it.object refl
