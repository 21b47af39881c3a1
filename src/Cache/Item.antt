-- ===== src/Cache/Item.antt =====
-- cache/item.go: the life of an item, under its mutex. System calls answer as the arguments say.
-- Where a function lets go of the mutex (while it closes the scheduler), what others do to the item
-- in the meantime is an argument as well.
pub mod Open
pub mod Release
pub mod Space
pub mod Read
pub mod Trust
mod Tests
use varc.Base.{
  ℕ, ◌+◌, ◌-◌, ◌≡◌, Bool, true, false, not, ◌&&◌, ◌||◌, Option, none, some, List, [], ◌∷◌, ltb, leb,
  ◌==◌, if◌then◌else◌, le64, lt64, minus_one, add64, sub64,
}
use varc.Ranges.{Range, total_size, intersection}
use varc.Cache.Write.{Bytes, Disk, write_at_no_overwrite}

-- A fingerprint: `none` is the empty one of an object without validators.
abbrev pub Fingerprint : Type 0
Fingerprint = Option ℕ

unfoldable pub same : Fingerprint → Fingerprint → Bool
same none none = true
same (some a) (some b) = a == b
same none (some b) = false
same (some a) none = false

-- `itemInfo`; keys and times are numbers.
pub record Info : Type 0 where
  pub key : ℕ
  pub atime : ℕ
  pub size : ℕ
  pub rs : List Range
  pub fingerprint : Fingerprint

-- What is at `metaPath`.
pub data MetaFile : Type 0 where
  missing corrupt : MetaFile
  holds : Info → MetaFile

-- What is at `dataPath`: the bytes, which are 0 from the size on.
pub record DataFile : Type 0 where
  pub bytes : Bytes
  pub size : ℕ

-- `fd` is whether the file is open. `object` is the fingerprint of the object that the item has,
-- `downloaders` that of the object for which the scheduler was made.
pub record CacheItem : Type 0 where
  pub key : ℕ
  pub data_file : Option DataFile
  pub meta_file : MetaFile
  pub fd : Bool
  pub info : Info
  pub object : Option Fingerprint
  pub downloaders : Option Fingerprint
  pub loaded : Bool
  pub opens : ℕ
  pub grace_timer : Bool
  pub pending_accesses : ℕ
  pub being_reset : Bool

pub data ItemError : Type 0 where
  object_changed key_mismatch file_closed not_open scheduler_gone eof : ItemError
  failed : ℕ → ItemError

-- `source.Metadata`, as far as it matters: the size and the fingerprint that it gives.
pub record Metadata : Type 0 where
  pub size : ℕ
  pub fingerprint : Fingerprint

-- The errors of system calls, the time, and what others do while the scheduler is closed.
pub record Answers : Type 0 where
  pub now : ℕ
  pub open_meta : Option ℕ
  pub close_dls : Option ℕ
  pub close_fd : Option ℕ
  pub remove_data : Option ℕ
  pub remove_meta : Option ℕ
  pub make_dirs : Option ℕ
  pub open_data : Option ℕ
  pub stat_data : Option ℕ
  pub truncate : Option ℕ
  pub save : List (Option ℕ)
  pub meanwhile : CacheItem → CacheItem

abbrev pub as_error : Option ℕ → Option ItemError
as_error none = none
as_error (some e) = some (failed e)

-- A system call: its error, or what follows.
unfoldable pub unless :
    Option ℕ → CacheItem → CacheItem × Option ItemError → CacheItem × Option ItemError
unless none it next = next
unless (some e) it next = (it, some (failed e))

-- A step with an error, and the next step if there is none.
infixl 5 ◌>>=◌
abbrev pub ◌>>=◌ :
    CacheItem × Option ItemError
    → (CacheItem → CacheItem × Option ItemError)
    → CacheItem × Option ItemError
(it, none) >>= f = f it
(it, some e) >>= f = (it, some e)

unfoldable pub fresh_info : ℕ → ℕ → Info
fresh_info key now = record { key = key; atime = now; size = 0; rs = []; fingerprint = none }

unfoldable pub new_item : ℕ → Option DataFile → MetaFile → CacheItem
new_item key data_file meta_file = record {
  key = key;
  data_file = data_file;
  meta_file = meta_file;
  fd = false;
  info = record { key = 0; atime = 0; size = 0; rs = []; fingerprint = none };
  object = none;
  downloaders = none;
  loaded = false;
  opens = 0;
  grace_timer = false;
  pending_accesses = 0;
  being_reset = false;
}

-- `createDownloadersLocked`
unfoldable pub create_for : CacheItem → Option Fingerprint → Option Fingerprint → CacheItem
create_for it (some v) object = it
create_for it none none = it
create_for it none (some v) = if le64 it.info.size 0 then it else record it { downloaders = some v }

unfoldable pub create_downloaders : CacheItem → CacheItem
create_downloaders it = create_for it it.downloaders it.object

-- Of the steps of `saveLocked` the first error counts; the rename is the last of them.
unfoldable pub first_error : List (Option ℕ) → Option ItemError
first_error [] = none
first_error (none ∷ rest) = first_error rest
first_error (some e ∷ rest) = some (failed e)

unfoldable pub saved : CacheItem → Option ItemError → CacheItem × Option ItemError
saved it none = (record it { meta_file = holds it.info }, none)
saved it (some e) = (it, some e)

-- `saveLocked`
unfoldable pub save_locked : Answers → CacheItem → CacheItem × Option ItemError
save_locked a it = saved it (first_error a.save)

-- `closeFDLocked`
unfoldable pub close_fd_locked : Answers → CacheItem → CacheItem × Option ItemError
close_fd_locked a it = if it.fd then (record it { fd = false }, as_error a.close_fd) else (it, none)

-- Closing the scheduler with the mutex released.
unfoldable pub close_these : Answers → CacheItem → Option Fingerprint → CacheItem × Option ItemError
close_these a it none = (it, none)
close_these a it (some v) = (a.meanwhile (record it { downloaders = none }), as_error a.close_dls)

unfoldable pub close_downloaders : Answers → CacheItem → CacheItem × Option ItemError
close_downloaders a it = close_these a it it.downloaders

unfoldable pub remove_data_file : Answers → CacheItem → CacheItem × Option ItemError
remove_data_file a it = unless a.remove_data it (record it { data_file = none }, none)

unfoldable pub remove_meta_file : Answers → CacheItem → CacheItem × Option ItemError
remove_meta_file a it = unless a.remove_meta it (record it { meta_file = missing }, none)

-- `loadLocked`, by what the file is.
unfoldable pub load_from : Answers → MetaFile → CacheItem → CacheItem × Option ItemError
unfolding fresh_info
load_from a missing it = (record it { info = fresh_info it.key a.now }, none)
load_from a corrupt it = (
  record it {
    meta_file = (remove_meta_file a it).0.meta_file;
    data_file = (remove_data_file a it).0.data_file;
    info = fresh_info it.key a.now;
  },
  none,
)
load_from a (holds info) it =
    if info.key == it.key then (record it { info = info }, none) else (it, some key_mismatch)

-- The end of `resetLocked`, and the whole.
unfoldable pub make_fresh : Answers → CacheItem → CacheItem × Option ItemError
make_fresh a it = (record it { info = fresh_info it.key a.now; object = none }, none)

unfoldable pub reset_locked : Answers → CacheItem → CacheItem × Option ItemError
reset_locked a it =
    close_downloaders a it
    >>= close_fd_locked a
    >>= remove_data_file a
    >>= remove_meta_file a
    >>= make_fresh a
