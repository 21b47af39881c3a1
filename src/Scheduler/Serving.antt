-- ===== src/Scheduler/Serving.antt =====
-- Which fetch `_ensureDownloader` leaves for what is missing
-- (internal/engine/scheduler/scheduler.go).
use varc.Base.{
  ℕ, ◌+◌, ◌<◌, ◌≡◌, ◌⊎◌, subst, inl, inr, refl, true, false, Option, none, some, List, [], ◌∷◌,
  ◌++◌, arith, ◌==◌, int64_half, le64, lt64, add64, Bool-cases, Option-cases,
}
use varc.Base.Int64.{lt64_small, add64_small}
use varc.Ranges.{Range, end, is_empty}
use varc.Scheduler.Item.{ItemView}
use varc.Scheduler.{
  Error, Env, Downloader, Downloaders, remove_closed, set_range, serves, reuse, open_error,
  fresh_downloader, wanted, with_read_ahead, start_downloader, window_of, ensure_wanted,
  ensure_downloader,
}

-- Some element of the list has the property.
abbrev pub Any {ℓ} : {A : Type ℓ} → (A → Type 0) → List A → Type 0
Any P [] = ⊥
Any P (x ∷ xs) = P x ⊎ Any P xs

abbrev pub All {ℓ} : {A : Type ℓ} → (A → Type 0) → List A → Type 0
All P [] = Unit {0}
All P (x ∷ xs) = P x × All P xs

-- A fetch that is not closed, has begun at or before `r` and is within the window of it, and whose maxOffset
-- is not before the end of `r`. It may have been told to stop.
pub record Serves (window : ℕ) (r : Range) (dl : Downloader) : Type 0 where
  pub is_open : dl.closed ≡ false
  pub begun : le64 dl.start r.pos ≡ true
  pub near : lt64 r.pos (add64 dl.offset window) ≡ true
  pub goes_on : le64 (end r) dl.max_offset ≡ true

le64_refl : (a : ℕ) → le64 a a ≡ true
unfolding le64
le64_refl a = ground arith

le64-or-lt64 : (a b : ℕ) → lt64 a b ≡ false → le64 b a ≡ true
unfolding le64 lt64
le64-or-lt64 a b h = ground arith

remove_closed-All : (dls : List Downloader) → All (λ dl. dl.closed ≡ false) (remove_closed dls)
unfolding remove_closed
remove_closed-All [] = tt
remove_closed-All (dl ∷ dls) = elim (Bool-cases dl.closed) [
  | inl e ↦ rw e (remove_closed-All dls)
  | inr e ↦ simp e (refl, remove_closed-All dls)
]

set_range-Serves :
    (window : ℕ) (r : Range) (dl : Downloader)
    → dl.closed ≡ false
    → serves window r dl ≡ true
    → Serves window r (set_range dl r)
unfolding set_range serves
set_range-Serves window r dl o s = elim (Bool-cases (lt64 dl.max_offset (end r))) [
  | inl e ↦ rw e (record {
    is_open = o;
    begun = ground arith;
    near = ground arith;
    goes_on = le64_refl (end r);
  })
  | inr e ↦ rw e (record {
    is_open = o;
    begun = ground arith;
    near = ground arith;
    goes_on = le64-or-lt64 dl.max_offset (end r) e;
  })
]

abbrev Reused : ℕ → Range → Option (List Downloader) → Type 0
Reused window r none = Unit {0}
Reused window r (some dls) = Any (Serves window r) dls

reuse-Reused :
    (window : ℕ) (r : Range) (dls : List Downloader)
    → All (λ dl. dl.closed ≡ false) dls
    → Reused window r (reuse window r dls)
unfolding reuse
reuse-Reused window r [] o = tt
reuse-Reused window r (dl ∷ dls) o = elim (Bool-cases (serves window r dl)) [
  | inl s ↦ rw s (inl (set_range-Serves window r dl o.0 s))
  | inr s ↦
      let ih : Reused window r (reuse window r dls) = reuse-Reused window r dls o.1 in
      elim (Option-cases (reuse window r dls)) [
        | inl n ↦ rw (s, n, reuse) tt
        | inr (dls', n) ↦ rw (s, n, reuse) (inr (subst (Reused window r) n ih))
      ]
]

Any-append_last :
    (P : Downloader → Type 0) (dls : List Downloader) (dl : Downloader)
    → P dl
    → Any P (dls ++ dl ∷ [])
Any-append_last P [] dl h = inl h
Any-append_last P (x ∷ xs) dl h = inr (Any-append_last P xs dl h)

abbrev Outcome : ℕ → Range → Downloaders × Option Error → Type 0
Outcome window r (d, none) = Any (Serves window r) d.dls
Outcome window r (d, some e) = Unit {0}

window_of_pos : (env : Env) → 0 < window_of env
unfolding lt64
window_of_pos env = ground arith

fresh-Serves :
    (env : Env) (r : Range)
    → r.pos + window_of env < int64_half
    → Serves (window_of env) r (fresh_downloader env r)
unfolding fresh_downloader
fresh-Serves env r small =
    let w : 0 < window_of env = window_of_pos env in
    record {
      is_open = refl;
      begun = le64_refl r.pos;
      near =
          rw
            (
              add64_small r.pos (window_of env) small,
              lt64_small r.pos (r.pos + window_of env) (omega arith) small,
            )
            (ground arith);
      goes_on = le64_refl (end r);
    }

start-Outcome :
    (env : Env) (d : Downloaders) (r : Range)
    → r.pos + window_of env < int64_half
    → Outcome (window_of env) r (start_downloader env d r)
unfolding start_downloader
start-Outcome env d r small = elim (Option-cases (open_error env r.pos)) [
  | inl n ↦
      rw (n, start_downloader)
        (Any-append_last (Serves (window_of env) r) d.dls (fresh_downloader env r)
          (fresh-Serves env r small))
  | inr (e, n) ↦ rw (n, start_downloader) tt
]

ensure_wanted-Outcome :
    (env : Env) (d : Downloaders) (r : Range)
    → r.pos + window_of env < int64_half
    → 0 < r.size
    → Outcome (window_of env) r (ensure_wanted env d (true, r))
unfolding ensure_wanted
ensure_wanted-Outcome env d r small pos =
    let ih : Reused (window_of env) r (reuse (window_of env) r (remove_closed d.dls)) =
      reuse-Reused (window_of env) r (remove_closed d.dls) (remove_closed-All d.dls) in
    let some_left : (r.size == 0) ≡ false = ground arith in
    elim (Option-cases (reuse (window_of env) r (remove_closed d.dls))) [
      | inl n ↦
          rw (n, ensure_wanted, some_left)
            (start-Outcome env (record d { dls = remove_closed d.dls }) r small)
      | inr (dls, n) ↦ rw (n, ensure_wanted) (subst (Reused (window_of env) r) n ih)
    ]

Outcome-Any :
    (window : ℕ) (r : Range) (result : Downloaders × Option Error)
    → Outcome window r result
    → result.1 ≡ none
    → Any (Serves window r) result.0.dls
Outcome-Any window r (d, none) o e = o
Outcome-Any window r (d, some x) o e = cc

wanted_missing :
    (env : Env) (item : ItemView) (r : Range)
    → let missing = item.find_missing (with_read_ahead env r) in
      is_empty missing ≡ false → wanted env item r ≡ (true, missing)
unfolding wanted
wanted_missing env item r full = rw full

not_empty_pos : (r : Range) → is_empty r ≡ false → 0 < r.size
unfolding is_empty
not_empty_pos r e = ground arith

-- If `_ensureDownloader` returns no error and part of the wanted range (with the read-ahead) is
-- missing, then some fetch that is not closed has begun at or before the missing part, is within the window of
-- it, and has a maxOffset that is not before its end. It may be one that was told to stop and has not closed yet,
-- since `_ensureDownloader` does not ask for that. The conditions are that the window after the missing part's start does not overflow and
-- that its size is not 0 as `IsEmpty` reads it.
pub ensure_downloader-Serves :
    (env : Env) (item : ItemView) (d : Downloaders) (r : Range)
    → (item.find_missing (with_read_ahead env r)).pos + window_of env < int64_half
    → is_empty (item.find_missing (with_read_ahead env r)) ≡ false
    → (ensure_downloader env item d r).1 ≡ none
    → Any
        (Serves (window_of env) (item.find_missing (with_read_ahead env r)))
        (ensure_downloader env item d r).0.dls
unfolding ensure_downloader
ensure_downloader-Serves env item d r small full ok =
    let missing = item.find_missing (with_read_ahead env r) in
    let some_left : 0 < missing.size = not_empty_pos missing full in
    let outcome : Outcome (window_of env) missing (ensure_wanted env d (wanted env item r)) =
      rw (wanted_missing env item r full) (ensure_wanted-Outcome env d missing small some_left) in
    Outcome-Any (window_of env) missing (ensure_wanted env d (wanted env item r)) outcome ok
