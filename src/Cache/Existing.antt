-- ===== src/Cache/Existing.antt =====
-- cache/cache.go: `loadExistingMeta`, which takes over an item that an earlier run left. Key 0 is the empty
-- one; what the file system answers is an argument.
pub mod Loads
mod Tests
use varc.Base.{
  ℕ, Bool, true, false, not, ◌&&◌, ◌||◌, Option, none, some, List, [], ◌==◌, if◌then◌else◌, lt64,
}
use varc.Ranges.{Range, intersection}
use varc.Cache.Item.{Info, holds, DataFile, CacheItem, new_item}

-- What is read at the path of the metadata.
pub data MetaRead : Type 0 where
  meta_gone corrupt : MetaRead
  unreadable : ℕ → MetaRead
  reads_as : Info → MetaRead

-- The data file: whether it is a regular file, what is in it, and its time.
pub data DataStat : Type 0 where
  data_gone : DataStat
  stat_failed : ℕ → DataStat
  has_file : Bool → DataFile → ℕ → DataStat

pub data Lookup : Type 0 where
  present absent : Lookup
  lookup_failed : ℕ → Lookup

-- `os.Remove`, as far as it matters: the file was not there, or another error.
pub data Removed : Type 0 where
  removed was_gone : Removed
  remove_failed : ℕ → Removed

pub record Existing : Type 0 where
  pub read : MetaRead
  pub path_valid : Bool
  pub stat : DataStat
  -- Whether both files are where the key says.
  pub in_place : Bool
  pub expected_meta : Lookup
  pub expected_data : Lookup
  pub make_dirs : Option ℕ
  pub move_data : Option ℕ
  pub move_meta : Option ℕ
  pub remove_meta : Removed
  pub remove_data : Removed

pub data Loaded : Type 0 where
  -- Nothing is taken over.
  skipped : Loaded
  load_failed : Option ℕ → Loaded
  takes_over : CacheItem → Loaded

-- Removing the metadata: any error is returned, or all but that the file is gone.
unfoldable pub drop_meta : Removed → Loaded
drop_meta removed = skipped
drop_meta was_gone = load_failed none
drop_meta (remove_failed e) = load_failed (some e)

unfoldable pub unless_failed : Removed → Loaded → Loaded
unless_failed removed next = next
unless_failed was_gone next = next
unless_failed (remove_failed e) next = load_failed (some e)

unfoldable pub drop_both : Existing → Loaded
unfolding unless_failed
drop_both x = unless_failed x.remove_meta (unless_failed x.remove_data skipped)

-- The item that is taken over; a time of 0 is none, and the data file's time stands in for it.
unfoldable pub taken_over : Info → DataFile → ℕ → CacheItem
taken_over info file time =
    let atime = if info.atime == 0 then time else info.atime in
    record (new_item info.key (some file) (holds info)) {
      info = record info {
        rs = intersection info.rs (record { pos = 0; size = info.size });
        atime = atime;
      };
      loaded = true;
    }

-- The steps in which files at another place are moved to the place that the key gives.
unfoldable pub on_error : Option ℕ → Loaded → Loaded
on_error none next = next
on_error (some e) next = load_failed (some e)

unfoldable pub unless_present : Lookup → Loaded → Loaded
unless_present present next = skipped
unless_present absent next = next
unless_present (lookup_failed e) next = load_failed (some e)

unfoldable pub relocate : Existing → Loaded → Loaded
unfolding on_error unless_present
relocate x next = unless_present x.expected_meta (
    unless_present x.expected_data
      (on_error x.make_dirs (on_error x.move_data (on_error x.move_meta next))))

unfoldable pub place : Existing → Info → DataFile → ℕ → Loaded
unfolding relocate taken_over
place x info file time =
    if x.in_place
    then takes_over (taken_over info file time)
    else relocate x (takes_over (taken_over info file time))

unfoldable pub check_data : Existing → Info → DataStat → Loaded
unfolding drop_meta drop_both place
check_data x info data_gone = drop_meta x.remove_meta
check_data x info (stat_failed e) = load_failed (some e)
check_data x info (has_file regular file time) =
    if not regular || not (file.size == info.size) then drop_both x else place x info file time

unfoldable pub check_meta : Existing → MetaRead → Loaded
unfolding check_data drop_meta
check_meta x meta_gone = skipped
check_meta x corrupt = drop_meta x.remove_meta
check_meta x (unreadable e) = load_failed (some e)
check_meta x (reads_as info) =
    if (info.key == 0) || lt64 info.size 0
    then drop_meta x.remove_meta
    else (if x.path_valid then check_data x info x.stat else load_failed none)

-- `loadExistingMeta`
unfoldable pub load_existing_meta : Existing → Loaded
load_existing_meta x = check_meta x x.read
