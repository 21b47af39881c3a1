-- ===== src/Cache/Item/Read/Bytes.antt =====
-- What `readAtOnce` reads (cache/item.go).
use varc.Base.{
  ℕ, ◌+◌, ◌-◌, ◌<◌, ◌≡◌, true, none, some, List, length, get_or, min, ◌==◌, if◌then◌else◌,
}
use varc.Ranges.{Range, present}
use varc.Ranges.Valid.{IsValid, covers}
use varc.Cache.Write.{Bytes}
use varc.Cache.Item.{Fingerprint, DataFile, CacheItem, eof}
use varc.Cache.Item.Trust.{BytesOf}
use varc.Cache.Item.Read.{within_size, ReadResult}

-- An item of the object with the fingerprint `v` and the size: its file has that size, and its
-- present bytes are the object's.
pub record IsReadable (version : Fingerprint → Bytes) (v : Fingerprint) (size : ℕ) (it : CacheItem)
    : Type 0 where
  pub file : DataFile
  pub has_file : it.data_file ≡ some file
  pub full : file.size ≡ size
  pub sized : it.info.size ≡ size
  pub valid : IsValid it.info.rs
  pub sound : BytesOf version v it.data_file it.info.rs

-- `len` bytes from `off` on or those up to the object's end, with EOF exactly where they are fewer; each is the object's if
-- it is in `rs`, the ranges that are present. If the range that was asked for, cut at the object's end, is present, then
-- all of them are.
pub record IsRead (version : Fingerprint → Bytes) (v : Fingerprint) (size len off : ℕ)
    (rs : List Range) (r : ReadResult) : Type 0 where
  pub many : length r.bytes ≡ min len (size - off)
  pub bytes :
      (i : ℕ)
      → i < length r.bytes
      → covers rs (off + i) ≡ true
      → get_or r.bytes i 0 ≡ version v (off + i)
  pub whole :
      present rs (within_size size (record { pos = off; size = len })) ≡ true
      → (i : ℕ) → i < length r.bytes
      → get_or r.bytes i 0 ≡ version v (off + i)
  pub ended : r.err ≡ (if min len (size - off) == len then none else some eof)
