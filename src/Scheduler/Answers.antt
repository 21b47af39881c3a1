-- ===== src/Scheduler/Answers.antt =====
-- Every call of `Download` that waits is answered once and only once
-- (internal/engine/scheduler/scheduler.go).
use varc.Base.{
  ℕ, ◌+◌, ◌<◌, ◌≡◌, ◌∙◌, refl, inl, inr, Bool, not, ◌||◌, Option, none, some, List, [], ◌∷◌, ◌++◌,
  arith, ltb, ◌==◌, length, if◌then◌else◌, Bool-cases, Option-cases,
}
use varc.Ranges.{Range}
use varc.Scheduler.Item.{ItemView}
use varc.Scheduler.{
  Error, Env, Waiter, Downloaders, count_errors, ensure_downloader, ensure_wanted, start_downloader,
  open_error, reuse, remove_closed, wanted, window_of, download, is_no_space, max_error_count,
}
use varc.Scheduler.Waiters.{
  answer_all, close_waiters, still_waiting, now_served, dispatch_waiters, ensure_all, give_up,
  kick_waiters, close,
}
use varc.Scheduler.Fetch.{close_fetch}
use varc.Scheduler.Run.{
  Call, downloads, ensures, kicks, writes, ends, update_at, step, run, new_downloaders,
}

-- How often number `i` waits, and how often it was answered.
abbrev pub pending : ℕ → List Waiter → ℕ
pending i [] = 0
pending i (w ∷ ws) = (if w.id == i then 1 else 0) + pending i ws

abbrev pub answered : ℕ → List (ℕ × Option Error) → ℕ
answered i [] = 0
answered i (a ∷ as') = (if a.0 == i then 1 else 0) + answered i as'

-- Numbers below `next_id` wait or have been answered, once in all; no other number occurs.
abbrev pub IsNumbered : Downloaders → Type 0
IsNumbered d =
    (i : ℕ) → answered i d.answers + pending i d.waiters ≡ (if ltb i d.next_id then 1 else 0)

answered-append :
    (i : ℕ) (xs ys : List (ℕ × Option Error))
    → answered i (xs ++ ys) ≡ answered i xs + answered i ys
answered-append i [] ys = omega arith
answered-append i (x ∷ xs) ys = omega (arith, answered-append i xs ys)

pending-append : (i : ℕ) (xs ys : List Waiter) → pending i (xs ++ ys) ≡ pending i xs + pending i ys
pending-append i [] ys = omega arith
pending-append i (x ∷ xs) ys = omega (arith, pending-append i xs ys)

answered-answer_all :
    (i : ℕ) (err : Option Error) (ws : List Waiter) → answered i (answer_all err ws) ≡ pending i ws
unfolding answer_all
answered-answer_all i err [] = refl
answered-answer_all i err (w ∷ ws) = omega (arith, answered-answer_all i err ws)

pending_split :
    (env : Env) (item : ItemView) (i : ℕ) (ws : List Waiter)
    → pending i (now_served env item ws) + pending i (still_waiting env item ws) ≡ pending i ws
unfolding now_served still_waiting
pending_split env item i [] = refl
pending_split env item i (w ∷ ws) = ground (arith, pending_split env item i ws)

close_waiters-IsNumbered :
    (d : Downloaders) (err : Option Error) → IsNumbered d → IsNumbered (close_waiters d err)
unfolding close_waiters
close_waiters-IsNumbered d err v i = omega (
  arith,
  v i,
  answered-append i d.answers (answer_all err d.waiters),
  answered-answer_all i err d.waiters,
)

dispatch_waiters-IsNumbered :
    (env : Env) (item : ItemView) (d : Downloaders)
    → IsNumbered d
    → IsNumbered (dispatch_waiters env item d)
unfolding dispatch_waiters
dispatch_waiters-IsNumbered env item d v i = omega (
  arith,
  v i,
  answered-append i d.answers (answer_all none (now_served env item d.waiters)),
  answered-answer_all i none (now_served env item d.waiters),
  pending_split env item i d.waiters,
)

-- Two states with the same waiters, answers and numbers.
record Same (d d' : Downloaders) : Type 0 where
  waiters : d'.waiters ≡ d.waiters
  answers : d'.answers ≡ d.answers
  next_id : d'.next_id ≡ d.next_id

Same-IsNumbered : {d d' : Downloaders} → Same d d' → IsNumbered d → IsNumbered d'
Same-IsNumbered s v i = rw (s.waiters, s.answers, s.next_id) (v i)

count_errors-Same : (d : Downloaders) (n : ℕ) (err : Option Error) → Same d (count_errors d n err)
unfolding count_errors
count_errors-Same d n none = ground arith
count_errors-Same d n (some e) = record { waiters = refl; answers = refl; next_id = refl }

start_downloader-Same :
    (env : Env) (d : Downloaders) (r : Range) → Same d (start_downloader env d r).0
unfolding start_downloader
start_downloader-Same env d r = elim (Option-cases (open_error env r.pos)) [
  | inl n ↦ rw (n, start_downloader) (record { waiters = refl; answers = refl; next_id = refl })
  | inr (e, n) ↦ rw (n, start_downloader) (count_errors-Same d 0 (some e))
]

ensure_wanted-Same :
    (env : Env) (d : Downloaders) (start_new : Bool) (r : Range)
    → Same d (ensure_wanted env d (start_new, r)).0
unfolding ensure_wanted
ensure_wanted-Same env d start_new r =
    elim (Option-cases (reuse (window_of env) r (remove_closed d.dls))) [
      | inl n ↦
          let s = start_downloader-Same env (record d { dls = remove_closed d.dls }) r in
          rw (n, ensure_wanted)
            (elim (Bool-cases (not start_new || (r.size == 0))) [
              | inl e ↦ rw e (record { waiters = refl; answers = refl; next_id = refl })
              | inr e ↦
                  rw e (record { waiters = s.waiters; answers = s.answers; next_id = s.next_id })
            ])
      | inr (dls, n) ↦
          rw (n, ensure_wanted) (record { waiters = refl; answers = refl; next_id = refl })
    ]

ensure_downloader-Same :
    (env : Env) (item : ItemView) (d : Downloaders) (r : Range)
    → Same d (ensure_downloader env item d r).0
unfolding ensure_downloader
ensure_downloader-Same env item d r = let w = wanted env item r in ensure_wanted-Same env d w.0 w.1

ensure_all-Same :
    (env : Env) (item : ItemView) (ws : List Waiter) (d : Downloaders)
    → Same d (ensure_all env item ws d)
unfolding ensure_all
ensure_all-Same env item [] d = record { waiters = refl; answers = refl; next_id = refl }
ensure_all-Same env item (w ∷ ws) d =
    let d' = (ensure_downloader env item d w.r).0 in
    let s = ensure_downloader-Same env item d w.r in
    let t = ensure_all-Same env item ws d' in
    record {
      waiters = t.waiters ∙ s.waiters;
      answers = t.answers ∙ s.answers;
      next_id = t.next_id ∙ s.next_id;
    }

give_up-IsNumbered : (d : Downloaders) → IsNumbered d → IsNumbered (give_up d).0
unfolding give_up
give_up-IsNumbered d v = elim (Bool-cases (is_no_space d.last_err)) [
  | inl e ↦ rw e (close_waiters-IsNumbered d d.last_err v)
  | inr e ↦ rw e (elim (Bool-cases (ltb max_error_count d.error_count)) [
    | inl many ↦ rw many (close_waiters-IsNumbered d d.last_err v)
    | inr few ↦ rw few v
  ])
]

kick_waiters-IsNumbered :
    (env : Env) (item : ItemView) (d : Downloaders)
    → IsNumbered d
    → IsNumbered (kick_waiters env item d).0
unfolding kick_waiters
kick_waiters-IsNumbered env item d v =
    let d' = dispatch_waiters env item d in
    let v' : IsNumbered d' = dispatch_waiters-IsNumbered env item d v in
    elim (Bool-cases (length d'.waiters == 0)) [
      | inl e ↦ rw e v'
      | inr e ↦ rw e (
          give_up-IsNumbered (ensure_all env item d'.waiters d')
            (Same-IsNumbered (ensure_all-Same env item d'.waiters d') v'))
    ]

download-IsNumbered :
    (env : Env) (item : ItemView) (d : Downloaders) (r : Range)
    → IsNumbered d
    → IsNumbered (download env item d r).0
unfolding download
download-IsNumbered env item d r v =
    let v' = Same-IsNumbered (ensure_downloader-Same env item d r) v in
    elim (Option-cases (ensure_downloader env item d r).1) [
      | inl n ↦
          rw (n, download)
            (λ i.
              let e = (ensure_downloader env item d r).0 in
              ground
                (arith, v' i, pending-append i e.waiters (record { id = e.next_id; r = r } ∷ [])))
      | inr (e, n) ↦ rw (n, download) v'
    ]

close-IsNumbered :
    (env : Env) (item : ItemView) (d : Downloaders) (in_err : Option Error)
    → IsNumbered d
    → IsNumbered (close env item d in_err)
unfolding close
close-IsNumbered env item d in_err v =
    close_waiters-IsNumbered _ in_err
      (dispatch_waiters-IsNumbered env item (record d { dls = [] }) v)

step-IsNumbered :
    (env : Env) (d : Downloaders) (c : Call) → IsNumbered d → IsNumbered (step env d c)
unfolding step
step-IsNumbered env d (downloads item r) v = download-IsNumbered env item d r v
step-IsNumbered env d (ensures item r) v = Same-IsNumbered (ensure_downloader-Same env item d r) v
step-IsNumbered env d (kicks item) v = kick_waiters-IsNumbered env item d v
step-IsNumbered env d (writes k n skipped err) v = v
step-IsNumbered env d (ends item k n err) v =
    let d' : Downloaders = record d { dls = update_at k (λ dl. (close_fetch dl none).0) d.dls } in
    let c = count_errors-Same d' n err in
    kick_waiters-IsNumbered env item (count_errors d' n err)
      (Same-IsNumbered {d = d'} {d' = count_errors d' n err} c v)

run-IsNumbered :
    (env : Env) (cs : List Call) (d : Downloaders) → IsNumbered d → IsNumbered (run env d cs)
unfolding run
run-IsNumbered env [] d v = v
run-IsNumbered env (c ∷ cs) d v = run-IsNumbered env cs (step env d c) (step-IsNumbered env d c v)

new_downloaders-IsNumbered : IsNumbered new_downloaders
unfolding new_downloaders
new_downloaders-IsNumbered i = ground arith

close-waiters :
    (env : Env) (item : ItemView) (d : Downloaders) (in_err : Option Error)
    → (close env item d in_err).waiters ≡ []
unfolding close close_waiters
close-waiters env item d in_err = refl

close-next_id :
    (env : Env) (item : ItemView) (d : Downloaders) (in_err : Option Error)
    → (close env item d in_err).next_id ≡ d.next_id
unfolding close close_waiters dispatch_waiters
close-next_id env item d in_err = refl

-- After any sequence of calls on a new scheduler, with any contents of the item at each, every
-- number that was given out either waits or has been answered, once in all; no other number occurs.
pub run_numbers : (env : Env) (cs : List Call) → IsNumbered (run env new_downloaders cs)
run_numbers env cs = run-IsNumbered env cs new_downloaders new_downloaders-IsNumbered

-- A `Close` with any error, after any sequence of calls on a new scheduler, leaves every number
-- that was given out answered exactly once, and no one waiting.
pub close_answers_each :
    (env : Env) (cs : List Call) (item : ItemView) (in_err : Option Error) (i : ℕ)
    → i < (run env new_downloaders cs).next_id
    → (answered i (close env item (run env new_downloaders cs) in_err).answers ≡ 1)
      × ((close env item (run env new_downloaders cs) in_err).waiters ≡ [])
close_answers_each env cs item in_err i lt =
    let d = run env new_downloaders cs in
    let v : IsNumbered (close env item d in_err) =
      close-IsNumbered env item d in_err (run_numbers env cs) in
    let z : (close env item d in_err).waiters ≡ [] = close-waiters env item d in_err in
    let m : (close env item d in_err).next_id ≡ d.next_id = close-next_id env item d in_err in
    let none_left : pending i (close env item d in_err).waiters ≡ 0 = rw z in
    (ground (arith, v i), z)
