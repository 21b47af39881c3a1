-- ===== src/Scheduler/Stopping.antt =====
-- How a fetch stops and what a close reports (internal/engine/scheduler/scheduler.go).
use varc.Base.{
  ℕ, ◌≡◌, subst, refl, inl, inr, false, Option, none, some, List, [], ◌∷◌, arith, if◌then◌else◌,
  Bool-cases, Option-cases, le64,
}
use varc.Ranges.{Range}
use varc.Scheduler.{Error, Env, Downloader, set_range, fresh_downloader}
use varc.Scheduler.Fetch.{
  Wakeup, quit, timeout, kicked, stop_fetch, wait_room, after_write, close_fetch, stop_and_close,
}

-- The channel `quit` is closed at most once, and exactly when the fetch has been stopped: closing a
-- channel twice is a panic.
abbrev pub QuitsOnce : Downloader → Type 0
QuitsOnce dl = dl.quits ≡ (if dl.stop then 1 else 0)

stop_fetch-QuitsOnce : (dl : Downloader) → QuitsOnce dl → QuitsOnce (stop_fetch dl)
unfolding stop_fetch
stop_fetch-QuitsOnce dl q = ground arith

-- What holds of a fetch when its `Write` stops waiting.
abbrev QuitsOnceOr : Option Downloader → Type 0
QuitsOnceOr none = Unit {0}
QuitsOnceOr (some dl) = QuitsOnce dl

wait_room-QuitsOnceOr :
    (events : List Wakeup) (dl : Downloader) → QuitsOnce dl → QuitsOnceOr (wait_room events dl)
unfolding wait_room
wait_room-QuitsOnceOr [] dl q = elim (Bool-cases (le64 dl.max_offset dl.offset)) [
  | inl e ↦ rw e tt
  | inr e ↦ rw e q
]
wait_room-QuitsOnceOr (quit ∷ events) dl q = q
wait_room-QuitsOnceOr (timeout ∷ events) dl q = elim (Bool-cases (le64 dl.max_offset dl.offset)) [
  | inl e ↦ rw e (stop_fetch-QuitsOnce dl q)
  | inr e ↦ rw e q
]
wait_room-QuitsOnceOr (kicked m ∷ events) dl q = elim (Bool-cases (le64 dl.max_offset dl.offset)) [
  | inl e ↦ rw e (wait_room-QuitsOnceOr events (record dl { max_offset = m; kick = false }) q)
  | inr e ↦ rw e q
]

after_write-QuitsOnce :
    (dl : Downloader) (n skipped : ℕ) (err : Option Error)
    → QuitsOnce dl
    → QuitsOnce (after_write dl n skipped err).0
unfolding after_write stop_fetch
after_write-QuitsOnce dl n skipped err q = ground arith

set_range-QuitsOnce : (dl : Downloader) (r : Range) → QuitsOnce dl → QuitsOnce (set_range dl r)
unfolding set_range
set_range-QuitsOnce dl r q = ground arith

stop_and_close-QuitsOnce :
    (dl : Downloader) (err : Option Error) → QuitsOnce dl → QuitsOnce (stop_and_close dl err).0
unfolding stop_and_close close_fetch
stop_and_close-QuitsOnce dl err q = stop_fetch-QuitsOnce dl q

-- What happens to one fetch: a `Write` with the events it hears while it waits and the results of
-- its write, `setRange`, and `stopAndClose`.
pub data FetchCall : Type 0 where
  waits : List Wakeup → FetchCall
  writes : ℕ → ℕ → Option Error → FetchCall
  extends : Range → FetchCall
  stops : Option Error → FetchCall

-- The fetch after its calls; a wait that goes on leaves it as it was.
pub fetch_step : Downloader → FetchCall → Downloader
unfolding wait_room
fetch_step dl (waits events) = elim (wait_room events dl) [ none ↦ dl | some dl' ↦ dl' ]
fetch_step dl (writes n skipped err) = (after_write dl n skipped err).0
fetch_step dl (extends r) = set_range dl r
fetch_step dl (stops err) = (stop_and_close dl err).0

pub fetch_run : Downloader → List FetchCall → Downloader
unfolding fetch_step
fetch_run dl [] = dl
fetch_run dl (c ∷ cs) = fetch_run (fetch_step dl c) cs

fetch_step-QuitsOnce :
    (dl : Downloader) (c : FetchCall) → QuitsOnce dl → QuitsOnce (fetch_step dl c)
unfolding fetch_step
fetch_step-QuitsOnce dl (waits events) q = elim (Option-cases (wait_room events dl)) [
  | inl n ↦ rw (n, fetch_step) q
  | inr (dl', n) ↦
      let w : QuitsOnceOr (some dl') = subst QuitsOnceOr n (wait_room-QuitsOnceOr events dl q) in
      rw (n, fetch_step) w
]
fetch_step-QuitsOnce dl (writes n skipped err) q = after_write-QuitsOnce dl n skipped err q
fetch_step-QuitsOnce dl (extends r) q = set_range-QuitsOnce dl r q
fetch_step-QuitsOnce dl (stops err) q = stop_and_close-QuitsOnce dl err q

fetch_run-QuitsOnce :
    (cs : List FetchCall) (dl : Downloader) → QuitsOnce dl → QuitsOnce (fetch_run dl cs)
unfolding fetch_run
fetch_run-QuitsOnce [] dl q = q
fetch_run-QuitsOnce (c ∷ cs) dl q =
    fetch_run-QuitsOnce cs (fetch_step dl c) (fetch_step-QuitsOnce dl c q)

-- Whatever happens to a new fetch, and in whatever order, its channel `quit` has been closed once
-- if the fetch was stopped and never if it was not, so no second close can panic.
pub fetch_run-fresh :
    (env : Env) (r : Range) (cs : List FetchCall)
    → QuitsOnce (fetch_run (fresh_downloader env r) cs)
unfolding fresh_downloader
fetch_run-fresh env r cs = fetch_run-QuitsOnce cs (fresh_downloader env r) refl
