-- ===== src/PageBuffer.antt =====
-- internal/engine/bufferpool/reader_writer.go: `RW`, a queue of bytes over pages from the pool. A page is
-- a buffer of the pool's size, with what was in it before. `int` is a natural number; a position of
-- Seek is an int64.
pub mod Bytes
pub mod Fills
pub mod Reads
pub mod Writes
pub mod Queue
pub mod Copies
mod Tests
use varc.Base.{
  ℕ, zero, suc, ◌+◌, ◌-◌, ◌/◌, ◌%◌, Bool, true, false, ◌&&◌, Option, none, some, List, [], ◌∷◌,
  ◌++◌, length, take, drop, get_or, set, min, ltb, leb, ◌==◌, if◌then◌else◌, add64, sub64, lt64,
}

pub record Rw : Type 0 where
  pub buffer_size : ℕ
  pub closed : Bool
  pub active : ℕ
  pub pages : List (List ℕ)
  pub size : ℕ
  pub last_offset : ℕ
  pub out : ℕ
  pub reserved : List (List ℕ)

-- The errors of RW, and those of the reader, the writer or the observer that it is given.
pub data RwError : Type 0 where
  closed_pipe eof short_write invalid_whence negative_seek seek_past_end : RwError
  other : ℕ → RwError

unfoldable pub new_rw : ℕ → Rw
new_rw buffer_size = record {
  buffer_size = buffer_size;
  closed = false;
  active = 0;
  pages = [];
  size = 0;
  last_offset = 0;
  out = 0;
  reserved = [];
}

-- How many buffers `Reserve` asks the pool for; it keeps those that the pool gives.
unfoldable pub buffers_for : Rw → ℕ → ℕ
buffers_for b n = (n + b.buffer_size - 1) / b.buffer_size

unfoldable pub reserve : (ℕ → List (List ℕ)) → Rw → ℕ → Rw
unfolding buffers_for
reserve get_n b n = record b { reserved = get_n (buffers_for b n) }

-- `readPage`
unfoldable pub read_page : Rw → ℕ → List ℕ
read_page b i =
    let number = i / b.buffer_size in
    let offset = i % b.buffer_size in
    let page = get_or b.pages number [] in
    drop offset (if suc number == length b.pages then take b.last_offset page else page)

unfoldable pub at_eof : Rw → Bool
at_eof b = leb b.size b.out

pub record Got : Type 0 where
  pub rw : Rw
  pub bytes : List ℕ
  pub err : Option RwError

-- The loop of `Read` for `len` bytes, with a bound on its rounds.
unfoldable pub read_loop : ℕ → Rw → ℕ → Got
read_loop zero b len = record { rw = b; bytes = []; err = none }
read_loop (suc k) b len =
    let part = take len (read_page b b.out) in
    let rest = read_loop k (record b { out = b.out + length part }) (len - length part) in
    if len == 0
    then record { rw = b; bytes = []; err = none }
    else (if at_eof b
        then record { rw = b; bytes = []; err = some eof }
        else record rest { bytes = part ++ rest.bytes })

-- `Read`
unfoldable pub read : Rw → ℕ → Got
read b len =
    if b.closed
    then record { rw = b; bytes = []; err = some closed_pipe }
    else read_loop (suc len) b len

-- The buffer that `writePage` appends: a reserved one, or one that the pool gives.
unfoldable pub last_of : List ℕ → List (List ℕ) → List ℕ
last_of gives [] = gives
last_of gives (p ∷ ps) = get_or (p ∷ ps) (length ps) p

-- `writePage`, which leaves room in the last page.
unfoldable pub write_page : (ℕ → List ℕ) → Rw → Rw
write_page gives b =
    if ltb 0 (length b.pages) && ltb b.last_offset b.buffer_size then b else record b {
      pages = b.pages ++ last_of (gives (length b.pages)) b.reserved ∷ [];
      last_offset = 0;
      reserved = take (length b.reserved - 1) b.reserved;
    }

unfoldable pub room : Rw → ℕ
room b = length (get_or b.pages (length b.pages - 1) []) - b.last_offset

-- Bytes copied to the last page from its offset on.
unfoldable pub overwrite : List ℕ → ℕ → List ℕ → List ℕ
overwrite page i bytes = take i page ++ (bytes ++ drop (i + length bytes) page)

unfoldable pub fill : Rw → List ℕ → Rw
fill b bytes =
    let i = length b.pages - 1 in
    record b {
      pages = set b.pages i (overwrite (get_or b.pages i []) b.last_offset bytes);
      size = b.size + length bytes;
      last_offset = b.last_offset + length bytes;
    }

-- A writer with a state: the state after a write, how many bytes it took, and its error.
abbrev pub Writer : Type 0 → Type 0
Writer O = O → List ℕ → O × ℕ × Option ℕ

pub record Put (O : Type 0) : Type 0 where
  pub rw : Rw
  pub seen : O
  pub n : ℕ
  pub err : Option RwError

module _ {O : Type 0} where
  -- What the write observer says to bytes that were written.
  unfoldable pub judge : ℕ → O × ℕ × Option ℕ → O × Option RwError
  judge n (o, k, some e) = (o, some (other e))
  judge n (o, k, none) = (o, if k == n then none else some short_write)

  unfoldable pub observe : Option (Writer O) → O → List ℕ → O × Option RwError
  unfolding judge
  observe none o bytes = (o, none)
  observe (some w) o bytes = judge (length bytes) (w o bytes)

  unfoldable pub put_on : Rw → ℕ → O × Option RwError → (O → Put O) → Put O
  put_on b n (o, some e) rest = record { rw = b; seen = o; n = n; err = some e }
  put_on b n (o, none) rest = record (rest o) { n = n + (rest o).n }

  -- The loop of `Write`, with a bound on its rounds; `gives` has the buffer that
  -- the pool gives for each further page.
  unfoldable pub write_loop : Option (Writer O) → (ℕ → List ℕ) → ℕ → Rw → O → List ℕ → Put O
  write_loop watch gives zero b o p = record { rw = b; seen = o; n = 0; err = none }
  write_loop watch gives (suc k) b o p =
      let paged = write_page gives b in
      let part = take (room paged) p in
      let now = fill paged part in
      let rest : O → Put O = λ (o' : O). write_loop watch gives k now o' (drop (length part) p) in
      if length p == 0
      then record { rw = b; seen = o; n = 0; err = none }
      else put_on now (length part) (observe watch o part) rest

  -- `Write`
  unfoldable pub write : Option (Writer O) → (ℕ → List ℕ) → Rw → O → List ℕ → Put O
  write watch gives b o p =
      if b.closed
      then record { rw = b; seen = o; n = 0; err = some closed_pipe }
      else write_loop watch gives (suc (length p)) b o p

-- `Seek`: the position it returns, and its error.
pub data Whence : Type 0 where
  from_start from_current from_end from_elsewhere : Whence

unfoldable pub seek_base : Rw → Whence → Option ℕ
seek_base b from_start = some 0
seek_base b from_current = some b.out
seek_base b from_end = some b.size
seek_base b from_elsewhere = none

unfoldable pub seek_to : Rw → ℕ → Option ℕ → Rw × ℕ × Option RwError
seek_to b offset none = (b, 0, some invalid_whence)
seek_to b offset (some base) =
    let target = add64 base offset in
    if lt64 target 0
    then (b, 0, some negative_seek)
    else (if lt64 b.size target
        then (b, sub64 offset (sub64 target b.size), some seek_past_end)
        else (record b { out = target }, target, none))

unfoldable pub seek : Rw → ℕ → Whence → Rw × ℕ × Option RwError
seek b offset whence = seek_to b offset (seek_base b whence)

-- `Close`, once no operation is active: what goes back to the pool.
unfoldable pub close : Rw → Rw × List (List ℕ)
close b =
    if b.closed
    then (b, [])
    else (record b { closed = true; pages = []; reserved = [] }, b.pages ++ b.reserved)
