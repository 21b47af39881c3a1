-- ===== src/ObjectIo.antt =====
-- internal/engine/objectio/retry_reader.go: a reader that opens its object again, at the byte it has
-- reached, when a read fails. The object is a parameter with a state of its own.
pub mod Spans
pub mod Reopen
pub mod Reads
mod Tests
use varc.Base.{
  ℕ, zero, suc, ◌+◌, ◌-◌, Bool, true, false, not, ◌||◌, Option, none, some, List, [], ◌∷◌, ◌++◌,
  length, ltb, ◌==◌, if◌then◌else◌, add64, sub64, lt64, minus_one,
}

pub record Span : Type 0 where
  pub start : ℕ
  pub stop : ℕ

-- What a read may fail with; `failed e no_retry` is an error of the stream, and whether it is marked
-- by `NoLowLevelRetry`.
pub data ReadError : Type 0 where
  eof reader_closed too_many_opens : ReadError
  failed : ℕ → Bool → ReadError

-- `Object.Open` with the stream that it returns: `Read` of at most so many bytes, and `Close`.
pub record Object {ℓ} (S : Type ℓ) : Type ℓ where
  pub open_span : S → Option Span → S × Option ReadError
  pub read : S → ℕ → S × (List ℕ × Option ReadError)
  pub close : S → S

pub record RetryReader : Type 0 where
  pub base_span : Option Span
  pub start : ℕ
  pub stop : ℕ
  pub offset : ℕ
  pub max_tries : ℕ
  pub tries : ℕ
  pub err : Option ReadError
  pub opened : Bool

-- `OpenRetrying` up to the first open, for an object of the given size.
unfoldable pub new_reader : ℕ → ℕ → Option Span → RetryReader
new_reader size max_tries span =
    let plain : RetryReader = record {
      base_span = none;
      start = 0;
      stop = size;
      offset = 0;
      max_tries = max_tries;
      tries = 0;
      err = none;
      opened = false;
    } in
    elim span [
      | none ↦ plain
      | some sp ↦ record plain {
        base_span = some sp;
        start = sp.start;
        stop = if lt64 sp.stop 0 then size else add64 sp.stop 1;
      }
    ]

unfoldable pub span_for_open : RetryReader → Option Span
span_for_open h =
    if h.offset == 0
    then h.base_span
    else some (record {
      start = add64 h.start h.offset;
      stop = if lt64 h.stop 0 then minus_one else sub64 h.stop 1;
    })

unfoldable pub is_eof : ReadError → Bool
is_eof eof = true
is_eof _ = false

-- The negation of the condition of the loop of `Read`.
unfoldable pub done_with : Option ReadError → ℕ → Bool
done_with none left = left == 0
done_with (some e) left = true

unfoldable pub is_no_retry : ReadError → Bool
is_no_retry (failed e no_retry) = no_retry
is_no_retry _ = false

-- The variables of `Read`: the bytes read so far, how many more `p` takes, and `err`.
pub record Reading {ℓ} (S : Type ℓ) : Type ℓ where
  pub reader : RetryReader
  pub world : S
  pub bytes : List ℕ
  pub left : ℕ
  pub err : Option ReadError

module _ {ℓ} {S : Type ℓ} where
  -- The reader after the object's answer to an open.
  unfoldable pub opening : RetryReader → S × Option ReadError → RetryReader × S
  opening h (s, none) = (record h { err = none; opened = true }, s)
  opening h (s, some e) = (record h { err = some e }, s)

  -- `open`
  unfoldable pub open_object : Object S → RetryReader → S → RetryReader × S
  open_object o h s =
      let counted : RetryReader = record h { tries = h.tries + 1 } in
      if ltb counted.max_tries counted.tries
      then (record counted { err = some too_many_opens }, s)
      else opening counted (o.open_span s (span_for_open counted))

  -- `OpenRetrying`: the reader is returned where `err` is nil.
  unfoldable pub open_retrying : Object S → ℕ → ℕ → Option Span → S → RetryReader × S
  open_retrying o size max_tries span s = open_object o (new_reader size max_tries span) s

  -- `reopen`
  unfoldable pub reopen : Object S → RetryReader → S → RetryReader × S
  reopen o h s =
      if h.opened
      then open_object o (record h { opened = false }) (o.close s)
      else open_object o h s

  -- The reading after an attempt to open again: `err` is forgotten if it succeeded.
  unfoldable pub resumed : Reading S → ReadError → RetryReader × S → Reading S
  resumed w e (h, s) = record w {
    reader = h;
    world = s;
    err = elim h.err [ none ↦ none | some _ ↦ some e ];
  }

  -- What a failed round does with the error.
  unfoldable pub recover : Object S → Reading S → ReadError → Reading S
  recover o w e =
      let h : RetryReader = record (w.reader) { err = some e } in
      if is_eof e
      then record w { err = some e }
      else (if is_no_retry e
          then record w { reader = h; err = some e }
          else resumed w e (reopen o h w.world))

  -- What the stream's answer adds, its error aside.
  unfoldable pub add_bytes : Reading S → S → List ℕ → Reading S
  add_bytes w s bytes = record {
    reader = record (w.reader) { offset = add64 w.reader.offset (length bytes) };
    world = s;
    bytes = w.bytes ++ bytes;
    left = w.left - length bytes;
    err = none;
  }

  -- The reading after the stream's answer.
  unfoldable pub take_in : Object S → Reading S → S × (List ℕ × Option ReadError) → Reading S
  take_in o w (s, (bytes, none)) = add_bytes w s bytes
  take_in o w (s, (bytes, some e)) = recover o (add_bytes w s bytes) e

  -- Whether the loop ends.
  abbrev pub is_done : Reading S → Bool
  is_done w = done_with w.err w.left

  -- The loop of `Read`, with a bound on its rounds.
  unfoldable pub read_loop : Object S → ℕ → Reading S → Option (Reading S)
  read_loop o zero w = if is_done w then some w else none
  read_loop o (suc rounds) w =
      let rest = read_loop o rounds (take_in o w (o.read w.world w.left)) in
      if is_done w then some w else rest

  -- `Read` of `size` bytes, by the reader's error.
  unfoldable pub read_unless :
      Object S → ℕ → RetryReader → S → ℕ → Option ReadError → Option (Reading S)
  read_unless o rounds h s size none =
      read_loop o rounds (record { reader = h; world = s; bytes = []; left = size; err = none })
  read_unless o rounds h s size (some e) =
      some (record { reader = h; world = s; bytes = []; left = size; err = some e })

  unfoldable pub read : Object S → ℕ → RetryReader → S → ℕ → Option (Reading S)
  read o rounds h s size = read_unless o rounds h s size h.err
