-- ===== src/Cache/Item/Tests.antt =====
-- An item of an object of eight bytes, from its first open on.
use varc.Base.{
  ℕ, ◌+◌, ◌≡◌, refl, arith, subst, zero, suc, true, false, none, some, List, [], ◌∷◌, ltb, leb,
  ◌&&◌, if◌then◌else◌, lt64, le64,
}
use varc.Ranges.{Range, insert}
use varc.Cache.Write.{Bytes}
use varc.Cache.Write.Safety.{IsOrigin}
use varc.Cache.Write.Tests.{good_disk, good_disk-IsDisk}
use varc.Cache.Item.{
  Fingerprint, DataFile, MetaFile, missing, CacheItem, Info, ItemError, failed, Metadata, Answers,
  new_item,
}
use varc.Cache.Item.Open.{open_locked}
use varc.Cache.Item.Read.{Ensuring, nothing, ensures, downloads, Waiting, no_scheduler}
use varc.Cache.Item.Trust.{IsTrusted, IsQuiet, BytesOf, Ends}
use varc.Cache.Item.Trust.Opens.{IsOpened, open_locked-IsTrusted}
use varc.Cache.Item.Trust.Runs.{
  ItemCall, opens, releases, fetched, frees, item_step, item_run, AreCalls, item_run-BytesOf,
}

-- The content of version `v`: byte `x` is `x + v`.
abbrev version : Fingerprint → Bytes
version none x = x
version (some v) x = x + v

abbrev calm : Answers
calm = record {
  now = 5;
  open_meta = none;
  close_dls = none;
  close_fd = none;
  remove_data = none;
  remove_meta = none;
  make_dirs = none;
  open_data = none;
  stat_data = none;
  truncate = none;
  save = none ∷ none ∷ [];
  meanwhile = λ it. it;
}

calm-IsQuiet : IsQuiet version calm.meanwhile
calm-IsQuiet = record { keeps = λ it t. t; idle = λ it e. e; stays = λ it e. e }

abbrev object : ℕ → Metadata
object v = record { size = 8; fingerprint = some v }

-- Bytes 2 and 3 of version 100 are cached in an item that nobody uses.
abbrev unused : CacheItem
unused = record {
  key = 1;
  data_file = some (record { bytes = λ x. if leb 2 x && ltb x 4 then x + 100 else 0; size = 8 });
  meta_file = missing;
  fd = false;
  info = record {
    key = 1;
    atime = 0;
    size = 8;
    rs = record { pos = 2; size = 2 } ∷ [];
    fingerprint = some 100;
  };
  object = none;
  downloaders = none;
  loaded = true;
  opens = 0;
  grace_timer = false;
  pending_accesses = 0;
  being_reset = false;
}

abbrev two_bytes : DataFile
two_bytes = record { bytes = λ x. if leb 2 x && ltb x 4 then x + 100 else 0; size = 8 }

two_bytes_sound : BytesOf version (some 100) (some two_bytes) (record { pos = 2; size = 2 } ∷ [])
two_bytes_sound f e x h =
    let here : two_bytes.bytes x ≡ x + 100 = ground arith in
    let eq : two_bytes ≡ f = cc (e) in subst (λ (g : DataFile). g.bytes x ≡ x + 100) eq here

unused-IsTrusted : IsTrusted version unused
unused-IsTrusted = record {
  valid = omega arith;
  bytes = two_bytes_sound;
  owned = λ v e. cc;
  fetching = λ v e. cc;
  unloaded = λ e. cc;
}

-- Another version of the object is opened: what is cached is dropped.
open_locked-IsTrusted_example :
    Ends
      (IsTrusted version)
      (IsOpened version calm (object 200))
      (open_locked calm (object 200) unused)
open_locked-IsTrusted_example =
    open_locked-IsTrusted version calm (object 200) (omega arith) unused calm-IsQuiet
      unused-IsTrusted (λ e v n. cc)

-- The item is opened, two bytes are fetched, and it is released.
abbrev life : List ItemCall
life = opens calm (object 100) ∷ fetched good_disk (102 ∷ 103 ∷ []) 2 ∷ releases calm false ∷ []

fetched_bytes : IsOrigin (version (some 100)) (102 ∷ 103 ∷ []) 2
fetched_bytes zero lt = refl
fetched_bytes (suc zero) lt = refl
fetched_bytes (suc (suc i)) lt = omega arith

life_calls : AreCalls version (new_item 1 none missing) life
unfolding new_item item_step open_locked varc.Cache.Item.Open.load_once
    varc.Cache.Item.Open.check_version varc.Cache.Item.Open.make_dirs varc.Cache.Item.Open.open_fd
    varc.Cache.Item.Open.resize varc.Cache.Item.Open.resize_file varc.Cache.Item.Open.publish
    varc.Cache.Item.Open.count_open varc.Cache.Item.Open.adopt varc.Cache.Item.Open.mark_loaded
    varc.Cache.Item.Open.created varc.Cache.Item.Open.ranges_for varc.Cache.Item.Open.truncated
    varc.Cache.Item.unless varc.Cache.Item.load_from varc.Cache.Item.save_locked
    varc.Cache.Item.saved varc.Cache.Item.first_error varc.Cache.Item.create_downloaders
    varc.Cache.Item.create_for varc.Cache.Item.fresh_info lt64 le64 varc.Ranges.total_size
    varc.Cache.Item.Trust.Runs.write_into
life_calls = (
  (calm-IsQuiet, λ e v n. cc, omega arith),
  ((some 100, refl, good_disk-IsDisk, fetched_bytes, omega arith), ((calm-IsQuiet, refl), tt)),
)

item_run-BytesOf_example :
    BytesOf version
      (item_run (new_item 1 none missing) life).info.fingerprint
      (item_run (new_item 1 none missing) life).data_file
      (item_run (new_item 1 none missing) life).info.rs
item_run-BytesOf_example = item_run-BytesOf version 1 none missing life tt life_calls

-- A scheduler that has nothing to fetch.
idle_wait : Waiting
idle_wait it (downloads r) = (it, some (failed 1))
idle_wait it (nothing r) = (it, none)
idle_wait it (ensures r) = (it, none)
idle_wait it no_scheduler = (it, some (failed 1))

abbrev in_use : CacheItem
in_use = record unused { fd = true; opens = 1 }
