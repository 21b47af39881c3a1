-- ===== src/Cache/Clean/Tests.antt =====
-- A run of the cleaner on two items, the first of them open (cache/cache.go).
use varc.Base.{
  ℕ, ◌+◌, ◌≤◌, ◌≡◌, ◌≢◌, ◌⊎◌, inl, inr, refl, arith, Bool, true, false, Option, none, some, List,
  [], ◌∷◌, ◌==◌, if◌then◌else◌, Bool-cases, int64_half,
}
use varc.Cache.Clean.{Limits, CleanError, Freed, Candidate, Store, quotas_ok, clean_items}
use varc.Cache.Clean.Quotas.{logged, Handed, clean_items-quotas}

-- The bytes of the items 1 and 2.
record Pair : Type 0 where
  first : ℕ
  second : ℕ

abbrev pair_candidates : Pair → List Candidate
pair_candidates s =
    record { key = 1; atime = 50; size = s.first; opens = 1; grace = false }
    ∷ record { key = 2; atime = 60; size = s.second; opens = 0; grace = false }
    ∷ []

unfoldable pair_reset : Pair → ℕ → Pair × Freed
pair_reset s key =
    if key == 1
    then (
      record { first = 0; second = s.second },
      record { removed = false; freed = s.first; err = none },
    )
    else (record s { second = 0 }, record { removed = true; freed = s.second; err = none })

abbrev pair_store : Store Pair
pair_store = record {
  candidates = pair_candidates;
  reset = pair_reset;
  delete = λ s key. s;
  has = λ s key. true;
  failed = λ s. [];
  remember = λ s key e. s;
  forgive = λ s key. s;
  available = λ s. none;
  sort = λ cs. cs;
}

abbrev small_limits : Limits
small_limits = record { max_age = 0; max_size = 5; min_free = 0 }

abbrev full : Pair
full = record { first = 10; second = 20 }

both_taken : (clean_items pair_store small_limits 100 full).0 ≡ record { first = 0; second = 0 }
unfolding clean_items varc.Cache.Clean.shrink varc.Cache.Clean.unused_pass
    varc.Cache.Clean.open_pass varc.Cache.Clean.quotas_ok varc.Cache.Clean.sum_used
    varc.Cache.Clean.try_remove varc.Cache.Clean.after_removal varc.Cache.Clean.after_reset
    pair_reset varc.Base.le64 varc.Base.lt64 varc.Base.add64 varc.Cache.Clean.is_unused
    varc.Cache.Clean.remove_unused varc.Cache.Clean.is_gone varc.Base.sub64
    varc.Cache.Clean.enough_free
both_taken = refl

clean_items-quotas_example :
    (quotas_ok
        (logged pair_store)
        small_limits
        (clean_items (logged pair_store) small_limits 100 (full, [])).0
        (clean_items (logged pair_store) small_limits 100 (full, [])).1
      ≡ true)
    ⊎ Handed 1 (clean_items (logged pair_store) small_limits 100 (full, [])).0.1
clean_items-quotas_example =
    clean_items-quotas pair_store small_limits 1 (λ cs w. w) 100 full (inl (refl, omega arith))
