-- ===== src/Scheduler/Waiters.antt =====
-- internal/engine/scheduler/scheduler.go: answering those who wait, the periodic and
-- after-write kick, and the end of the scheduler.
use varc.Base.{ℕ, Bool, Option, none, List, [], ◌∷◌, ◌++◌, length, ◌==◌, ltb, if◌then◌else◌}
use varc.Ranges.{clip}
use varc.Scheduler.Item.{ItemView}
use varc.Scheduler.{
  Error, Env, Waiter, Downloaders, is_no_space, max_error_count, ensure_downloader,
}

-- Sends `err` to each waiter.
unfoldable pub answer_all : Option Error → List Waiter → List (ℕ × Option Error)
answer_all err [] = []
answer_all err (w ∷ ws) = (w.id, err) ∷ answer_all err ws

-- `_closeWaiters(err)`
unfoldable pub close_waiters : Downloaders → Option Error → Downloaders
unfolding answer_all
close_waiters d err = record d { waiters = []; answers = d.answers ++ answer_all err d.waiters }

-- The test of `_dispatchWaiters`: the waiter's range, clipped to the object, is present.
unfoldable pub is_served : Env → ItemView → Waiter → Bool
is_served env item w = item.has_range (clip w.r env.src_size)

-- The two results of the loop in `_dispatchWaiters`: who waits on, and who is answered.
unfoldable pub still_waiting : Env → ItemView → List Waiter → List Waiter
still_waiting env item [] = []
still_waiting env item (w ∷ ws) =
    if is_served env item w then still_waiting env item ws else w ∷ still_waiting env item ws

unfoldable pub now_served : Env → ItemView → List Waiter → List Waiter
now_served env item [] = []
now_served env item (w ∷ ws) =
    if is_served env item w then w ∷ now_served env item ws else now_served env item ws

-- `_dispatchWaiters`
unfoldable pub dispatch_waiters : Env → ItemView → Downloaders → Downloaders
unfolding still_waiting now_served answer_all
dispatch_waiters env item d = record d {
  waiters = still_waiting env item d.waiters;
  answers = d.answers ++ answer_all none (now_served env item d.waiters);
}

-- The loop of `kickWaiters`: a downloader for every waiter, whatever the errors.
unfoldable pub ensure_all : Env → ItemView → List Waiter → Downloaders → Downloaders
ensure_all env item [] d = d
ensure_all env item (w ∷ ws) d = ensure_all env item ws (ensure_downloader env item d w.r).0

-- `kickWaiters` after the loop: give up on a full disk or after too many errors.
unfoldable pub give_up : Downloaders → Downloaders × Option Error
give_up d =
    if is_no_space d.last_err
    then (close_waiters d d.last_err, d.last_err)
    else (if ltb max_error_count d.error_count
        then (close_waiters d d.last_err, d.last_err)
        else (d, none))

-- `kickWaiters`
unfoldable pub kick_waiters : Env → ItemView → Downloaders → Downloaders × Option Error
unfolding ensure_all
kick_waiters env item d =
    let d' = dispatch_waiters env item d in
    if length d'.waiters == 0 then (d', none) else give_up (ensure_all env item d'.waiters d')

-- `Downloaders.Close(inErr)`, once every fetch has been stopped and has ended: the waiters whose
-- range is present are told so, the others are given `inErr`.
unfoldable pub close : Env → ItemView → Downloaders → Option Error → Downloaders
close env item d in_err = close_waiters (dispatch_waiters env item (record d { dls = [] })) in_err
