-- ===== src/Cache/Item/Read.antt =====
-- cache/item.go: reading through the cache. `readAt` with its retries, `readAtOnce`, `ensureLocked` and
-- `Reader.Read`. `os.File.ReadAt` reads the data file.
pub mod Bytes
use varc.Base.{
  ℕ, zero, suc, ◌+◌, ◌-◌, ◌≡◌, Bool, true, false, not, ◌&&◌, ◌||◌, Option, none, some, List, [],
  ◌∷◌, length, min, ltb, leb, ◌==◌, if◌then◌else◌, add64, sub64, lt64, le64,
}
use varc.Ranges.{Range, end, present}
use varc.Cache.Item.{
  Fingerprint, DataFile, CacheItem, ItemError, eof, failed, not_open, scheduler_gone,
  create_downloaders,
}

-- What `ensureLocked` does once it has let go of the mutex: nothing, since the range is present,
-- `EnsureDownloader` or `Download`.
pub data Ensuring : Type 0 where
  no_scheduler : Ensuring
  nothing ensures downloads : Range → Ensuring

-- The range clipped to the object.
unfoldable pub within_size : ℕ → Range → Range
within_size size r = if lt64 size (end r) then record r { size = sub64 size r.pos } else r

unfoldable pub ensuring : Bool → Range → Option Fingerprint → Ensuring
ensuring true r none = nothing r
ensuring true r (some v) = ensures r
ensuring false r none = no_scheduler
ensuring false r (some v) = downloads r

unfoldable pub ensure_found : CacheItem → Range → Bool → CacheItem × Ensuring
ensure_found it r true = (it, ensuring true r it.downloaders)
ensure_found it r false = let it' = create_downloaders it in (it', ensuring false r it'.downloaders)

-- `ensureLocked`, up to where it lets go of the mutex.
unfoldable pub ensure : CacheItem → Range → CacheItem × Ensuring
ensure it r = let r' = within_size it.info.size r in ensure_found it r' (present it.info.rs r')

-- What the scheduler answers and others do, until the mutex is taken again.
abbrev pub Waiting : Type 0
Waiting = CacheItem → Ensuring → CacheItem × Option ItemError

unfoldable pub await : Waiting → CacheItem × Ensuring → CacheItem × Option ItemError
await wait (it, no_scheduler) = (it, some scheduler_gone)
await wait (it, nothing r) = wait it (nothing r)
await wait (it, ensures r) = wait it (ensures r)
await wait (it, downloads r) = wait it (downloads r)

-- `n` bytes of a file from `off` on.
unfoldable pub bytes_from : DataFile → ℕ → ℕ → List ℕ
bytes_from f off zero = []
bytes_from f off (suc n) = f.bytes off ∷ bytes_from f (off + 1) n

-- `os.File.ReadAt`: up to the end of the file, with EOF where that is less than was asked for.
unfoldable pub read_file : Option DataFile → ℕ → ℕ → List ℕ × Option ItemError
read_file none len off = ([], some not_open)
read_file (some f) len off =
    let n = min len (f.size - off) in (bytes_from f off n, if n == len then none else some eof)

pub record ReadResult : Type 0 where
  pub item : CacheItem
  pub bytes : List ℕ
  pub err : Option ItemError

-- The end of `readAtOnce`, after `ensureLocked`: a file that was closed meanwhile gives an error.
unfoldable pub read_after : ℕ → ℕ → ℕ → CacheItem × Option ItemError → ReadResult
read_after now len off (it, some e) = record { item = it; bytes = []; err = some e }
read_after now len off (it, none) =
    let got = if it.fd then read_file it.data_file len off else ([], some not_open) in
    record {
      item = record it { info = record (it.info) { atime = now } };
      bytes = got.0;
      err = got.1;
    }

-- `readAtOnce` of `len` bytes.
unfoldable pub read_at_once : Waiting → ℕ → CacheItem → ℕ → ℕ → ReadResult
read_at_once wait now it len off =
    if it.fd
    then (if lt64 off 0
        then record { item = it; bytes = []; err = some eof }
        else read_after now len off (await wait (ensure it (record { pos = off; size = len }))))
    else record { item = it; bytes = []; err = some not_open }

-- Whether `readAt` tries again: only if the disk is full.
unfoldable pub tries_again : (ℕ → Bool) → Option ItemError → Bool
tries_again no_space (some (failed e)) = no_space e
tries_again no_space _ = false

-- `readAt`: each try is given the item as it is by then, after `KickCleaner` and the pause.
unfoldable pub read_at :
    (ℕ → Bool) → List (CacheItem → ReadResult) → (CacheItem → CacheItem) → ReadResult → ReadResult
read_at no_space [] cleaned last = last
read_at no_space (try_once ∷ rest) cleaned last =
    let now = try_once last.item in
    let later = read_at no_space rest cleaned (record now { item = cleaned now.item }) in
    if tries_again no_space now.err then later else now

-- `Reader.Read` at the reader's offset, by `readAt`: the bytes, the error and the new offset.
unfoldable pub reader_read : (ℕ → ReadResult) → ℕ → ℕ → ℕ → List ℕ × Option ItemError × ℕ
reader_read reading size len off =
    if len == 0
    then ([], none, off)
    else (if le64 size off
        then ([], some eof, off)
        else (let got = reading off in (got.bytes, got.err, add64 off (length got.bytes))))
