-- ===== src/Scheduler/Fetch.antt =====
-- internal/engine/scheduler/scheduler.go: one range fetch, `downloader`. Its `Write` waits while the
-- fetch has reached `maxOffset`; what it hears there is a list of events.
use varc.Base.{
  ℕ, ◌+◌, true, false, not, ◌&&◌, Option, none, some, List, [], ◌∷◌, ◌==◌, if◌then◌else◌, add64,
  lt64, le64,
}
use varc.Scheduler.{Error, stream_abandoned, Downloader, max_skip_bytes}

-- What ends one wait: `quit`, which another `_stop` has closed, a kick (with the `maxOffset` by
-- then), or the idle time, which stops the fetch.
pub data Wakeup : Type 0 where
  quit timeout : Wakeup
  kicked : ℕ → Wakeup

-- `_stop`
unfoldable pub stop_fetch : Downloader → Downloader
stop_fetch dl = if dl.stop then dl else record dl { stop = true; quits = dl.quits + 1 }

-- The loop of `Write`: `none` if it still waits after the events.
unfoldable pub wait_room : List Wakeup → Downloader → Option Downloader
unfolding stop_fetch
wait_room [] dl = if le64 dl.max_offset dl.offset then none else some dl
wait_room (quit ∷ events) dl = some dl
wait_room (timeout ∷ events) dl =
    if le64 dl.max_offset dl.offset then some (stop_fetch dl) else some dl
wait_room (kicked m ∷ events) dl =
    let rest = wait_room events (record dl { max_offset = m; kick = false }) in
    if le64 dl.max_offset dl.offset then rest else some dl

-- `Write` after the loop, by the results of `WriteAtNoOverwrite`.
unfoldable pub after_write : Downloader → ℕ → ℕ → Option Error → Downloader × Option Error
unfolding stop_fetch
after_write dl n skipped err =
    let total = if skipped == n then add64 dl.skipped skipped else 0 in
    let moved : Downloader = record dl { skipped = total; offset = add64 dl.offset n } in
    let done = if not moved.stop && lt64 max_skip_bytes total then stop_fetch moved else moved in
    (done, if done.stop && not done.buffered then some stream_abandoned else err)

-- The first steps of `Write`'s deferred function: a failed kick is reported unless there is an
-- error already, and nothing is kicked where nothing was written.
unfoldable pub write_result : ℕ → Option Error → Option Error → Option Error
write_result n err kick_err = if n == 0 then err else elim err [ none ↦ kick_err | some e ↦ some e ]

-- `close`
unfoldable pub close_fetch : Downloader → Option Error → Downloader × Option Error
close_fetch dl close_err = (record dl { closed = true }, none)

-- `stopAndClose`, once the fetch has ended.
unfoldable pub stop_and_close : Downloader → Option Error → Downloader × Option Error
unfolding stop_fetch close_fetch
stop_and_close dl close_err = close_fetch (stop_fetch dl) close_err

-- `download`, by the results of `in.WriteTo`: an abandoned stream is no error.
unfoldable pub download_result : Option Error → Option Error
download_result none = none
download_result (some stream_abandoned) = none
download_result (some e) = some e
