-- ===== src/Cache/Item/Space.antt =====
-- cache/item.go: `resetForSpace`, by which the cleaner takes an item's bytes.
use varc.Base.{
  ℕ, Bool, true, false, not, ◌&&◌, ◌||◌, Option, none, some, [], ◌==◌, if◌then◌else◌, lt64,
}
use varc.Ranges.{total_size}
use varc.Cache.Item.{
  CacheItem, DataFile, ItemError, failed, Answers, unless, ◌>>=◌, create_downloaders, save_locked,
  close_fd_locked, close_downloaders, remove_data_file, remove_meta_file,
}
use varc.Cache.Item.Open.{created, truncated}
use varc.Cache.Item.Release.{or_else}

-- The results: whether the item is gone, the bytes freed, and the error.
pub record Reset : Type 0 where
  pub removed : Bool
  pub freed : ℕ
  pub err : Option ItemError

unfoldable pub kept : ℕ → Option ItemError → Reset
kept freed err = record { removed = false; freed = freed; err = err }

-- Both files are removed as far as that succeeds.
unfoldable pub remove_files : Answers → CacheItem → CacheItem
remove_files a it = (remove_meta_file a (remove_data_file a it).0).0

-- An item that nobody uses, once its scheduler is closed.
unfoldable pub forget : Answers → ℕ → CacheItem × Option ItemError → CacheItem × Reset
forget a freed (it, some e) = (it, kept 0 (some e))
forget a freed (it, none) = (
  record (remove_files a (close_fd_locked a it).0) {
    info = record { key = 0; atime = 0; size = 0; rs = []; fingerprint = none };
    loaded = false;
    object = none;
  },
  record { removed = true; freed = freed; err = none },
)

-- `finishReset(!IsNoSpace(err))`: the flag stays only if the disk is full.
unfoldable pub finish_reset : (ℕ → Bool) → ItemError → CacheItem → CacheItem
finish_reset no_space (failed e) it = if no_space e then it else record it { being_reset = false }
finish_reset no_space e it = record it { being_reset = false }

unfoldable pub give_up_reset : (ℕ → Bool) → ℕ → ItemError → CacheItem → CacheItem × Reset
give_up_reset no_space freed e it = (finish_reset no_space e it, kept freed (some e))

unfoldable pub refused : (ℕ → Bool) → ℕ → CacheItem × Option ItemError → CacheItem × Reset
refused no_space freed (it, some e) = give_up_reset no_space freed e it
refused no_space freed (it, none) = (record it { being_reset = false }, kept freed none)

unfoldable pub make_scheduler : CacheItem → CacheItem × Option ItemError
make_scheduler it = (create_downloaders it, none)

unfoldable pub open_again : Answers → CacheItem → CacheItem × Option ItemError
open_again a it =
    unless a.open_data it (record it { data_file = some (created it.data_file) }, none)

unfoldable pub truncate_file : Answers → Option DataFile → CacheItem → CacheItem × Option ItemError
truncate_file a none it = (it, none)
truncate_file a (some f) it =
    unless a.truncate it
      (record it { data_file = some (truncated f it.info.size); fd = true }, none)

unfoldable pub truncate_again : Answers → CacheItem → CacheItem × Option ItemError
truncate_again a it = truncate_file a it.data_file it

-- The steps after the files are removed: the data file is made again, and the metadata saved. A
-- file that cannot be truncated is closed, so `fd` is set after that step.
unfoldable pub remake : Answers → CacheItem → CacheItem × Option ItemError
remake a it =
    unless a.make_dirs it (it, none)
    >>= open_again a
    >>= truncate_again a
    >>= save_locked a
    >>= make_scheduler

unfoldable pub rebuild : Answers → (ℕ → Bool) → ℕ → CacheItem → CacheItem × Reset
rebuild a no_space freed it = refused no_space freed (remake a it)

unfoldable pub stop_on : Option ItemError → CacheItem → CacheItem × Reset → CacheItem × Reset
stop_on none it rest = rest
stop_on (some e) it rest = (record it { being_reset = false }, kept 0 (some e))

-- An item in use keeps its readers: its scheduler and its file are closed, and its bytes dropped.
unfoldable pub reset_open : Answers → (ℕ → Bool) → CacheItem → CacheItem × Reset
reset_open a no_space it =
    let stopped = close_downloaders a (record it { being_reset = true }) in
    let closed = close_fd_locked a stopped.0 in
    let gone = remove_files a closed.0 in
    let emptied : CacheItem = record gone { info = record (gone.info) { rs = [] } } in
    let rest = rebuild a no_space (total_size closed.0.info.rs) emptied in
    if stopped.0.fd then stop_on (or_else stopped.1 closed.1) closed.0 rest else rest

-- `resetForSpace`
unfoldable pub reset_for_space : Answers → (ℕ → Bool) → CacheItem → CacheItem × Reset
reset_for_space a no_space it =
    if (it.opens == 0) && not it.grace_timer
    then forget a (total_size it.info.rs) (close_downloaders a it)
    else (if it.grace_timer || lt64 0 it.pending_accesses
        then (it, kept 0 none)
        else (if (total_size it.info.rs == 0) && not it.being_reset
            then (it, kept 0 none)
            else reset_open a no_space it))
