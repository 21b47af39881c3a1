-- ===== src/Scheduler/Run.antt =====
-- internal/engine/scheduler/scheduler.go: the critical sections of the callers, of the kicker and of
-- the fetches' goroutines, in any order. What the item holds may differ at each.
use varc.Base.{ℕ, zero, suc, Option, none, List, [], ◌∷◌}
use varc.Ranges.{Range}
use varc.Scheduler.Item.{ItemView}
use varc.Scheduler.{Error, Env, Downloader, Downloaders, count_errors, ensure_downloader, download}
use varc.Scheduler.Waiters.{kick_waiters}
use varc.Scheduler.Fetch.{after_write, close_fetch}

-- `New`
unfoldable pub new_downloaders : Downloaders
new_downloaders = record {
  dls = [];
  waiters = [];
  error_count = 0;
  last_err = none;
  next_id = 0;
  answers = [];
}

-- `writes k n skipped err`: fetch `k` of the list has written, with these results. `ends k n err`:
-- its goroutine has left `download`, closes it, counts and kicks.
pub data Call : Type 0 where
  downloads ensures : ItemView → Range → Call
  kicks : ItemView → Call
  writes : ℕ → ℕ → ℕ → Option Error → Call
  ends : ItemView → ℕ → ℕ → Option Error → Call

-- A change of the downloader at an index.
unfoldable pub update_at : ℕ → (Downloader → Downloader) → List Downloader → List Downloader
update_at k f [] = []
update_at zero f (dl ∷ dls) = f dl ∷ dls
update_at (suc k) f (dl ∷ dls) = dl ∷ update_at k f dls

unfoldable pub step : Env → Downloaders → Call → Downloaders
step env d (downloads item r) = (download env item d r).0
step env d (ensures item r) = (ensure_downloader env item d r).0
step env d (kicks item) = (kick_waiters env item d).0
step env d (writes k n skipped err) = record d {
  dls = update_at k (λ dl. (after_write dl n skipped err).0) d.dls;
}
step env d (ends item k n err) =
    let closed : Downloaders = record d {
      dls = update_at k (λ dl. (close_fetch dl none).0) d.dls;
    } in
    (kick_waiters env item (count_errors closed n err)).0

unfoldable pub run : Env → Downloaders → List Call → Downloaders
run env d [] = d
run env d (c ∷ cs) = run env (step env d c) cs
