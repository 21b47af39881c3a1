-- ===== src/Cache/Write.antt =====
-- cache/item.go: `HasRange`, `FindMissing` and `WriteAtNoOverwrite`, the methods by which the
-- scheduler reads and fills a sparse cache file. The file is a function from offsets to bytes;
-- `os.File.WriteAt` is a parameter, a `Disk`.
pub mod Safety
pub mod Tests
use varc.Base.{
  ℕ, ◌+◌, ◌-◌, ◌<◌, ◌≤◌, ◌≡◌, ◌⊎◌, Bool, Option, none, some, List, [], ◌∷◌, length, get_or, take,
  drop, ◌==◌, if◌then◌else◌, add64,
}
use varc.Ranges.{Range, FoundRange, present, find_missing, find_all, insert, clip}

abbrev pub Bytes : Type 0
Bytes = ℕ → ℕ

-- The results of `fd.WriteAt(b, off)`: the count, the error, and the file's bytes afterwards.
pub record WriteResult : Type 0 where
  pub wrote : ℕ
  pub err : Option ℕ
  pub file : Bytes

abbrev pub Disk : Type 0
Disk = Bytes → List ℕ → ℕ → WriteResult

-- What `os.File.WriteAt` is documented to do: it writes a first part of `b`, of the length that it
-- returns, and touches nothing outside the place of `b`.
pub record IsDisk (write_at : Disk) : Type 0 where
  pub bounded : (f : Bytes) (b : List ℕ) (off : ℕ) → (write_at f b off).wrote ≤ length b
  pub written :
      (f : Bytes) (b : List ℕ) (off i : ℕ)
      → i < (write_at f b off).wrote
      → (write_at f b off).file (off + i) ≡ get_or b i 0
  pub outside :
      (f : Bytes) (b : List ℕ) (off x : ℕ)
      → (x < off) ⊎ (off + length b ≤ x)
      → (write_at f b off).file x ≡ f x

pub data WriteError : Type 0 where
  offset_mismatch short_write : WriteError
  disk_error : ℕ → WriteError

-- The fields of the item that the methods use: the file, `info.Rs` and `info.Size`.
pub record Item : Type 0 where
  pub file : Bytes
  pub rs : List Range
  pub size : ℕ

-- The variables of `WriteAtNoOverwrite`, with the item.
pub record Writing : Type 0 where
  pub item : Item
  pub off : ℕ
  pub b : List ℕ
  pub n : ℕ
  pub skipped : ℕ
  pub err : Option WriteError

unfoldable pub has_range : Item → Range → Bool
has_range item r = present item.rs r

unfoldable pub item_find_missing : Item → Range → Range
item_find_missing item r = clip (find_missing item.rs r) item.size

-- The error of one write: the disk's, or a short write.
pub write_error : WriteResult → ℕ → Option WriteError
write_error w size = elim w.err [
  | some e ↦ some (disk_error e)
  | none ↦ if w.wrote == size then none else some short_write
]

-- The end of a round: `off += nn; b = b[nn:]; n += nn`.
pub advance : Writing → ℕ → ℕ → Item → Option WriteError → Writing
advance w nn skip item err = record {
  item = item;
  off = add64 w.off nn;
  b = drop nn w.b;
  n = w.n + nn;
  skipped = w.skipped + skip;
  err = err;
}

-- A missing range: write it to the file and record what was written.
pub write_missing : Disk → Writing → ℕ → Writing
unfolding advance write_error
write_missing write_at w size =
    let result = write_at w.item.file (take size w.b) w.off in
    let added : Range = record { pos = w.off; size = result.wrote } in
    advance w result.wrote 0 (record (w.item) { file = result.file; rs = insert w.item.rs added })
      (write_error result size)

-- The body of the loop over the found ranges.
pub write_found : Disk → Writing → FoundRange → Writing
unfolding advance write_missing
write_found write_at w found =
    if found.r.pos == w.off
    then (if found.present
        then advance w found.r.size found.r.size w.item none
        else write_missing write_at w found.r.size)
    else record w { err = some offset_mismatch }

-- The loop ends after the first error.
pub write_loop : Disk → List FoundRange → Writing → Writing
unfolding write_found
write_loop write_at [] w = w
write_loop write_at (found ∷ rest) w =
    let next = write_found write_at w found in
    elim next.err [ none ↦ write_loop write_at rest next | some e ↦ next ]

-- `WriteAtNoOverwrite`, with the item that it leaves.
unfoldable pub write_at_no_overwrite : Disk → Item → List ℕ → ℕ → Writing
unfolding write_loop
write_at_no_overwrite write_at item b off =
    write_loop write_at (find_all item.rs (record { pos = off; size = length b }))
      (record { item = item; off = off; b = b; n = 0; skipped = 0; err = none })
