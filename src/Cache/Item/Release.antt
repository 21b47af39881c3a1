-- ===== src/Cache/Item/Release.antt =====
-- cache/item.go: `release`, `closeAfterGrace` and `actualCloseLocked`, and the count of accesses.
use varc.Base.{Bool, true, false, not, ◌||◌, Option, none, some, if◌then◌else◌, lt64, add64, sub64}
use varc.Cache.Item.{
  CacheItem, ItemError, file_closed, Answers, save_locked, close_fd_locked, close_downloaders,
}

-- The first of two errors.
unfoldable pub or_else : Option ItemError → Option ItemError → Option ItemError
or_else none e = e
or_else (some x) e = some x

-- `actualCloseLocked`: every step is taken, whatever failed.
unfoldable pub actual_close : Answers → CacheItem → CacheItem × Option ItemError
actual_close a it =
    let stopped = close_downloaders a it in
    let closed = close_fd_locked a stopped.0 in
    let done = save_locked a closed.0 in (done.0, or_else stopped.1 (or_else closed.1 done.1))

-- `preAccess`, once no reset is under way, and `postAccess`.
unfoldable pub pre_access : CacheItem → CacheItem
pre_access it = record it { pending_accesses = add64 it.pending_accesses 1 }

unfoldable pub post_access : CacheItem → CacheItem
post_access it = record it { pending_accesses = sub64 it.pending_accesses 1 }

-- `release` under the mutex; `caching` is whether `HandleCaching` is positive.
unfoldable pub release_held : Answers → Bool → CacheItem → CacheItem × Option ItemError
release_held a caching it =
    let left : CacheItem = record it {
      info = record (it.info) { atime = a.now };
      opens = sub64 it.opens 1;
    } in
    if lt64 left.opens 0
    then (left, some file_closed)
    else (if lt64 0 left.opens
        then (left, none)
        else (if caching then (record left { grace_timer = true }, none) else actual_close a left))

unfoldable pub release : Answers → Bool → CacheItem → CacheItem × Option ItemError
unfolding pre_access post_access
release a caching it =
    let done = release_held a caching (pre_access it) in (post_access done.0, done.1)

-- `closeAfterGrace`
unfoldable pub close_after_grace : Answers → CacheItem → CacheItem
close_after_grace a it =
    if lt64 0 it.opens || not it.grace_timer
    then it
    else (actual_close a (record it { grace_timer = false })).0
