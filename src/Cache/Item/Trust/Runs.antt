-- ===== src/Cache/Item/Trust/Runs.antt =====
-- The life of an item: calls of cache/item.go in any order, and the writes of its scheduler.
use varc.Base.{
  ℕ, ◌+◌, ◌<◌, ◌≡◌, ◌∙◌, refl, subst, Bool, true, false, Option, none, some, List, [], ◌∷◌, length,
  max, int64_half,
}
use varc.Cache.Write.{Bytes, Disk, IsDisk, write_at_no_overwrite}
use varc.Cache.Write.Safety.{IsOrigin, write_at_no_overwrite-Written}
use varc.Cache.Item.{Fingerprint, DataFile, MetaFile, CacheItem, Metadata, Answers, new_item}
use varc.Cache.Item.Open.{open_locked}
use varc.Cache.Item.Release.{release, close_after_grace}
use varc.Cache.Item.Space.{reset_for_space}
use varc.Cache.Item.Trust.{BytesOf, MetaTrusted, IsTrusted, IsQuiet}
use varc.Cache.Item.Trust.Versions.{NoStale}
use varc.Cache.Item.Trust.Opens.{open_locked-IsTrusted}
use varc.Cache.Item.Trust.Closes.{
  release-IsTrusted, close_after_grace-IsTrusted, reset_for_space-IsTrusted,
}

-- `WriteAtNoOverwrite` on the item: without an open file nothing is written.
unfoldable pub write_into : Disk → List ℕ → ℕ → CacheItem → Bool → Option DataFile → CacheItem
write_into disk b off it true (some f) =
    let w =
      write_at_no_overwrite disk (record { file = f.bytes; rs = it.info.rs; size = it.info.size }) b
        off in
    record it {
      data_file = some (record { bytes = w.item.file; size = max f.size (off + w.n) });
      info = record (it.info) { rs = w.item.rs };
    }
write_into disk b off it true none = it
write_into disk b off it false file = it

pub data ItemCall : Type 0 where
  opens : Answers → Metadata → ItemCall
  releases : Answers → Bool → ItemCall
  grace_ends : Answers → ItemCall
  frees : Answers → (ℕ → Bool) → ItemCall
  fetched : Disk → List ℕ → ℕ → ItemCall

unfoldable pub item_step : CacheItem → ItemCall → CacheItem
item_step it (opens a meta) = (open_locked a meta it).0
item_step it (releases a caching) = (release a caching it).0
item_step it (grace_ends a) = close_after_grace a it
item_step it (frees a no_space) = (reset_for_space a no_space it).0
item_step it (fetched disk b off) = write_into disk b off it it.fd it.data_file

unfoldable pub item_run : CacheItem → List ItemCall → CacheItem
item_run it [] = it
item_run it (c ∷ cs) = item_run (item_step it c) cs

-- What a call may rely on: others are quiet while the mutex is released; an open finds no stale
-- scheduler and is told a size that is an int64; an item that is released, closed or reset for space is loaded; the file of metadata could be
-- removed by a reset for space; the bytes that a scheduler writes are those of the object that it fetches, at int64 offsets.
abbrev pub IsCall : (Fingerprint → Bytes) → CacheItem → ItemCall → Type 0
IsCall version it (opens a meta) =
    IsQuiet version a.meanwhile × NoStale meta it × (meta.size < int64_half)
IsCall version it (releases a caching) = IsQuiet version a.meanwhile × (it.loaded ≡ true)
IsCall version it (grace_ends a) = IsQuiet version a.meanwhile × (it.loaded ≡ true)
IsCall version it (frees a no_space) =
    IsQuiet version a.meanwhile × (it.loaded ≡ true) × (a.remove_meta ≡ none)
IsCall version it (fetched disk b off) =
    (v : Fingerprint) × (it.downloaders ≡ some v)
    × IsDisk disk
    × IsOrigin (version v) b off
    × (off + length b < int64_half)

abbrev pub AreCalls : (Fingerprint → Bytes) → CacheItem → List ItemCall → Type 0
AreCalls version it [] = Unit {0}
AreCalls version it (c ∷ cs) = IsCall version it c × AreCalls version (item_step it c) cs

module _ (version : Fingerprint → Bytes) where
  write_into-IsTrusted :
      (disk : Disk) (b : List ℕ) (off : ℕ) (it : CacheItem) (fd : Bool) (file : Option DataFile)
      → it.data_file ≡ file
      → IsTrusted version it
      → IsCall version it (fetched disk b off)
      → IsTrusted version (write_into disk b off it fd file)
  unfolding write_into
  write_into-IsTrusted disk b off it true none e t c = t
  write_into-IsTrusted disk b off it false file e t c = t
  write_into-IsTrusted disk b off it true (some f) e t (v, n, d, source, fits) =
      let same : it.info.fingerprint ≡ v = t.fetching v n in
      let w =
        write_at_no_overwrite disk (record { file = f.bytes; rs = it.info.rs; size = it.info.size })
          b off in
      let done_file : DataFile = record { bytes = w.item.file; size = max f.size (off + w.n) } in
      let done =
        write_at_no_overwrite-Written (version v) disk
          (record { file = f.bytes; rs = it.info.rs; size = it.info.size }) b off d
          (t.valid, λ x h. t.bytes f e x h ∙ rw same refl) source fits in
      record {
        valid = done.faithful.0;
        bytes = λ g m x h.
            let here : done_file.bytes x ≡ version it.info.fingerprint x =
              done.faithful.1 x h ∙ rw same refl in
            let eq : done_file ≡ g = cc (m) in
            subst (λ (k : DataFile). k.bytes x ≡ version it.info.fingerprint x) eq here;
        owned = t.owned;
        fetching = t.fetching;
        unloaded = λ l. cc (n, (t.unloaded l).no_downloaders);
      }

  item_step-IsTrusted :
      (it : CacheItem) (c : ItemCall)
      → IsTrusted version it
      → IsCall version it c
      → IsTrusted version (item_step it c)
  unfolding item_step
  item_step-IsTrusted it (opens a meta) t ok =
      (open_locked-IsTrusted version a meta ok.2 it ok.0 t ok.1).0
  item_step-IsTrusted it (releases a caching) t ok =
      release-IsTrusted version a ok.0 caching it t ok.1
  item_step-IsTrusted it (grace_ends a) t ok = close_after_grace-IsTrusted version a ok.0 it t ok.1
  item_step-IsTrusted it (frees a no_space) t ok =
      reset_for_space-IsTrusted version a ok.0 no_space it ok.2 t ok.1
  item_step-IsTrusted it (fetched disk b off) t ok =
      write_into-IsTrusted disk b off it it.fd it.data_file refl t ok

  item_run-IsTrusted :
      (cs : List ItemCall) (it : CacheItem)
      → IsTrusted version it
      → AreCalls version it cs
      → IsTrusted version (item_run it cs)
  unfolding item_run
  item_run-IsTrusted [] it t ok = t
  item_run-IsTrusted (c ∷ cs) it t ok =
      item_run-IsTrusted cs (item_step it c) (item_step-IsTrusted it c t ok.0) ok.1

  new_item-IsTrusted :
      (key : ℕ) (file : Option DataFile) (m : MetaFile)
      → MetaTrusted version file m
      → IsTrusted version (new_item key file m)
  unfolding new_item
  new_item-IsTrusted key file m t = record {
    valid = tt;
    bytes = λ f _ x h. cc;
    owned = λ v e. cc;
    fetching = λ v e. cc;
    unloaded = λ _. record { no_object = refl; no_downloaders = refl; meta = t };
  }

  -- Take an item with files that can be trusted, and any sequence of opens, releases, expired grace
  -- periods, resets for space and writes of fetched bytes, with any errors of system calls but one: a reset for
  -- space can remove the file of metadata. Then each byte that the item records as present is the byte of the content
  -- `version` of its fingerprint, so bytes of two fingerprints are never mixed; objects without a validator all
  -- have the fingerprint `none` and count as one content here. The other conditions are those of `IsCall` at each call: others
  -- leave such an item, keep it loaded and make no scheduler while the mutex is released; an open finds no scheduler of another object
  -- when nothing is cached, and a size that is an int64; an item that is released, closed or reset is loaded; a scheduler writes bytes of the
  -- content that it was made for, at int64 offsets, to a disk that behaves as documented.
  pub item_run-BytesOf :
      (key : ℕ) (file : Option DataFile) (m : MetaFile) (cs : List ItemCall)
      → MetaTrusted version file m
      → AreCalls version (new_item key file m) cs
      → BytesOf version
          (item_run (new_item key file m) cs).info.fingerprint
          (item_run (new_item key file m) cs).data_file
          (item_run (new_item key file m) cs).info.rs
  item_run-BytesOf key file m cs t ok =
      (item_run-IsTrusted cs (new_item key file m) (new_item-IsTrusted key file m t) ok).bytes
