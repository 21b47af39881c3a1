-- ===== src/Cache/Item/Open.antt =====
-- cache/item.go: `openLocked`. It waits while the item is closing, before any of this.
use varc.Base.{
  ℕ, Bool, true, false, not, ◌&&◌, Option, none, some, List, [], ltb, ◌==◌, if◌then◌else◌, lt64,
  add64,
}
use varc.Ranges.{Range, total_size, intersection}
use varc.Cache.Item.{
  Fingerprint, same, DataFile, CacheItem, ItemError, object_changed, Metadata, Answers, ◌>>=◌,
  create_downloaders, unless, load_from, save_locked, reset_locked,
}

-- `loadLocked`, and the flag that it is done.
unfoldable pub mark_loaded : CacheItem → CacheItem × Option ItemError
mark_loaded it = (record it { loaded = true }, none)

unfoldable pub load_once : Answers → CacheItem → CacheItem × Option ItemError
unfolding mark_loaded
load_once a it =
    if it.loaded
    then (it, none)
    else unless a.open_meta it (load_from a it.meta_file it >>= mark_loaded)

-- Both are known and equal.
unfoldable pub matches : Fingerprint → Fingerprint → Bool
matches (some a) (some b) = a == b
matches _ _ = false

-- The object is another one than the open item's, or the cached bytes are dropped unless both
-- fingerprints are known and equal.
unfoldable pub check_version : Answers → Metadata → CacheItem → CacheItem × Option ItemError
check_version a meta it =
    if lt64 0 it.opens
    then (if same it.info.fingerprint meta.fingerprint
        then (it, none)
        else (it, some object_changed))
    else (if not (total_size it.info.rs == 0) && not (matches meta.fingerprint it.info.fingerprint)
        then reset_locked a it
        else (it, none))

-- The two calls of `MkdirAll`.
unfoldable pub make_dirs : Answers → CacheItem → CacheItem × Option ItemError
make_dirs a it = unless a.make_dirs it (it, none)

-- The file that `O_CREATE` opens.
unfoldable pub created : Option DataFile → DataFile
created none = record { bytes = λ x. 0; size = 0 }
created (some f) = f

-- The ranges that are kept if there is no data file.
unfoldable pub ranges_for : Option DataFile → List Range → List Range
ranges_for none rs = if total_size rs == 0 then rs else []
ranges_for (some f) rs = rs

unfoldable pub open_fd : Answers → CacheItem → CacheItem × Option ItemError
unfolding created ranges_for
open_fd a it =
    let known : CacheItem = record it {
      info = record (it.info) { rs = ranges_for it.data_file it.info.rs };
    } in
    if it.fd
    then (it, none)
    else unless a.open_data known
        (record known { data_file = some (created it.data_file); fd = true }, none)

-- `Truncate` keeps the bytes below the new size, and is 0 from there on.
unfoldable pub truncated : DataFile → ℕ → DataFile
truncated f size = record { bytes = λ x. if ltb x size then f.bytes x else 0; size = size }

unfoldable pub resize_file :
    Answers → ℕ → Option DataFile → CacheItem → CacheItem × Option ItemError
resize_file a size none it = (it, none)
resize_file a size (some f) it =
    if f.size == size
    then (it, none)
    else unless a.truncate it (
      record it {
        data_file = some (truncated f size);
        info = record (it.info) { rs = intersection it.info.rs (record { pos = 0; size = size }) };
      },
      none,
    )

unfoldable pub resize : Answers → Metadata → CacheItem → CacheItem × Option ItemError
resize a meta it = unless a.stat_data it (resize_file a meta.size it.data_file it)

-- The object and the metadata of the item.
unfoldable pub adopt : Answers → Metadata → CacheItem → CacheItem
adopt a meta it = record it {
  object = some meta.fingerprint;
  info = record {
    key = it.key;
    atime = a.now;
    size = meta.size;
    rs = it.info.rs;
    fingerprint = meta.fingerprint;
  };
}

unfoldable pub publish : Answers → Metadata → CacheItem → CacheItem × Option ItemError
unfolding adopt
publish a meta it = save_locked a (create_downloaders (adopt a meta it))

unfoldable pub count_open : CacheItem → CacheItem × Option ItemError
count_open it = (record it { opens = add64 it.opens 1 }, none)

-- `openLocked`
unfoldable pub open_locked : Answers → Metadata → CacheItem → CacheItem × Option ItemError
open_locked a meta it =
    load_once a (record it { grace_timer = false })
    >>= check_version a meta
    >>= make_dirs a
    >>= open_fd a
    >>= resize a meta
    >>= publish a meta
    >>= count_open
