-- ===== src/StreamBuf.antt =====
-- internal/engine/streambuf/reader.go with internal/engine/readutil/fill.go: the reader that a goroutine
-- fills ahead. `produce` and `notice_exit` are the steps of that goroutine; a call that waits for it is
-- none of the others until it can go on. Counts of bytes are natural numbers.
pub mod Skip
pub mod WriteTo
pub mod Produced
pub mod Calls
pub mod Fifo
mod Tests
use varc.Base.{
  ℕ, zero, suc, ◌+◌, ◌-◌, ◌*◌, min, Bool, true, false, not, ◌&&◌, ◌||◌, Option, none, some, List,
  [], ◌∷◌, ◌++◌, length, take, drop, ltb, leb, ◌==◌, if◌then◌else◌, add64, lt64, le64,
}
use varc.ObjectIo.{ReadError, eof}

-- `bufferpool.BufferSize` and `softStartInitial`.
abbrev pub stream_buffer_size : ℕ
stream_buffer_size = 1048576

abbrev pub soft_start_initial : ℕ
soft_start_initial = 4096

-- `buffer`
pub record Buffer : Type 0 where
  pub buf : List ℕ
  pub err : Option ReadError
  pub offset : ℕ

-- `Reader`: the channel `ready` is its list, with `exited` once it is closed, and `token` its number of
-- tokens; `exit` is whether that channel is closed. `taken` and `returned` count the pool's buffers.
pub record StreamReader (S : Type 0) : Type 0 where
  pub world : S
  pub ready : List Buffer
  pub tokens : ℕ
  pub exit : Bool
  pub exited : Bool
  pub err : Option ReadError
  pub cur : Option Buffer
  pub size : ℕ
  pub closed : Bool
  pub taken : ℕ
  pub returned : ℕ

-- The source that is read ahead.
pub record Input (S : Type 0) : Type 0 where
  pub read : S → ℕ → S × List ℕ × Option ReadError
  pub close : S → S × Option ReadError

-- `New` and `init`: no reader without a buffer.
unfoldable pub new_stream : {S : Type 0} → S → ℕ → Option (StreamReader S)
new_stream s buffers =
    if buffers == 0
    then none
    else some (record {
      world = s;
      ready = [];
      tokens = buffers;
      exit = false;
      exited = false;
      err = none;
      cur = none;
      size = soft_start_initial;
      closed = false;
      taken = 0;
      returned = 0;
    })

-- `isEmpty`, `buffer` and `increment`.
unfoldable pub left : Buffer → List ℕ
left b = drop b.offset b.buf

unfoldable pub is_drained : Option Buffer → Bool
unfolding left
is_drained none = true
is_drained (some b) = length (left b) == 0

unfoldable pub increment : Buffer → ℕ → Buffer
increment b n = record b { offset = b.offset + n }

-- What a call ends with: an error of the source, or `ErrorStreamAbandoned`.
pub data StreamError : Type 0 where
  source_failed : ReadError → StreamError
  stream_abandoned : StreamError

unfoldable pub end_error : Option ReadError → StreamError
end_error none = stream_abandoned
end_error (some e) = source_failed e

pub data Filling (S : Type 0) : Type 0 where
  filled : StreamReader S → Buffer → Filling S
  waits : StreamReader S → Filling S
  ended : StreamReader S → StreamError → Filling S

pub data ReadResult (S : Type 0) : Type 0 where
  has_read : StreamReader S → List ℕ → Option StreamError → ReadResult S
  blocked : StreamReader S → ReadResult S

unfoldable pub as_stream_error : Option ReadError → Option StreamError
as_stream_error none = none
as_stream_error (some e) = some (source_failed e)

unfoldable pub has_error : Option ReadError → Bool
has_error none = false
has_error (some e) = true

unfoldable pub has_cur : Option Buffer → Bool
has_cur none = false
has_cur (some b) = true

module _ {S : Type 0} where
  unfoldable pub receive : StreamReader S → List Buffer → Filling S
  unfolding end_error
  receive a [] = if a.exited then ended a (end_error a.err) else waits a
  receive a (b ∷ rest) = filled (record a { cur = some b; ready = rest }) b

  -- `putBuffer` of the current buffer, and its token.
  unfoldable pub give_back : StreamReader S → Option Buffer → StreamReader S
  give_back a none = a
  give_back a (some b) = record a { cur = none; tokens = suc a.tokens; returned = suc a.returned }

  unfoldable pub fill_from : StreamReader S → Option Buffer → Filling S
  unfolding receive give_back is_drained
  fill_from a none = receive a a.ready
  fill_from a (some b) =
      let a' = give_back a (some b) in
      if is_drained (some b) then receive a' a'.ready else filled a b

  -- `fill`
  unfoldable pub fill : StreamReader S → Filling S
  unfolding fill_from
  fill a = fill_from a a.cur

  -- `Read` of at most `len` bytes, by the current buffer.
  unfoldable pub copied : StreamReader S → Buffer → ℕ → ReadResult S
  unfolding left increment is_drained as_stream_error
  copied a b len =
      let n = min len (length (left b)) in
      let b' = increment b n in
      if is_drained (some b')
      then has_read (record a { cur = some b'; err = b.err }) (take n (left b))
          (as_stream_error b.err)
      else has_read (record a { cur = some b' }) (take n (left b)) none

  unfoldable pub read_filled : ℕ → Filling S → ReadResult S
  unfolding copied
  read_filled len (filled a b) = copied a b len
  read_filled len (waits a) = blocked a
  read_filled len (ended a e) = has_read a [] (some e)

  unfoldable pub read : StreamReader S → ℕ → ReadResult S
  unfolding read_filled fill
  read a len = read_filled len (fill a)

  -- The goroutine sees that `exit` is closed; `none` is that it cannot take this step.
  unfoldable pub notice_exit : StreamReader S → Option (StreamReader S)
  notice_exit a = if a.exited || not a.exit then none else some (record a { exited = true })

  -- `StopBuffering`, up to its wait for the goroutine.
  unfoldable pub stop_buffering : StreamReader S → StreamReader S
  stop_buffering a = record a { exit = true }

  -- `Abandon`, once the goroutine has ended: every buffer goes back to the pool.
  unfoldable pub abandon : StreamReader S → StreamReader S
  abandon a =
      let held = if has_cur a.cur then 1 else 0 in
      record a {
        exit = true;
        cur = none;
        ready = [];
        returned = a.returned + held + length a.ready;
      }

-- How many bytes a round of the goroutine reads.
unfoldable pub next_size : ℕ → ℕ
next_size size = if ltb size stream_buffer_size then size else stream_buffer_size

module _ {S : Type 0} (o : Input S) where
  -- `ReadFill` of `len` bytes, with a bound on its rounds.
  unfoldable pub fill_front :
      List ℕ → Option (S × List ℕ × Option ReadError) → Option (S × List ℕ × Option ReadError)
  fill_front bytes none = none
  fill_front bytes (some (s, more, e)) = some (s, bytes ++ more, e)

  unfoldable pub fill_by :
      S × List ℕ × Option ReadError
      → Option (S × List ℕ × Option ReadError)
      → Option (S × List ℕ × Option ReadError)
  unfolding fill_front
  fill_by (s, bytes, none) rest = fill_front bytes rest
  fill_by (s, bytes, some e) rest = some (s, bytes, some e)

  unfoldable pub read_fill : ℕ → S → ℕ → Option (S × List ℕ × Option ReadError)
  unfolding fill_by
  read_fill zero s len = if len == 0 then some (s, [], none) else none
  read_fill (suc k) s len =
      let answer = o.read s len in
      let rest = read_fill k answer.0 (len - length answer.1) in
      if len == 0 then some (s, [], none) else fill_by answer rest

  -- A round of the goroutine that takes a token, by what ReadFill read.
  unfoldable pub produced :
      StreamReader S → Option (S × List ℕ × Option ReadError) → Option (StreamReader S)
  unfolding has_error
  produced a none = none
  produced a (some (s, bytes, e)) = some (record a {
    world = s;
    ready = a.ready ++ record { buf = bytes; err = e; offset = 0 } ∷ [];
    tokens = a.tokens - 1;
    exited = has_error e;
    size = if ltb a.size stream_buffer_size then a.size * 2 else a.size;
    taken = suc a.taken;
  })

  -- `none` is that the goroutine cannot take this step.
  unfoldable pub produce : StreamReader S → Option (StreamReader S)
  unfolding produced next_size
  produce a =
      if a.exited || (a.tokens == 0)
      then none
      else produced a (read_fill (next_size a.size) a.world (next_size a.size))

  -- `Close`, after Abandon: whether closing the source failed.
  unfoldable pub closed_input :
      StreamReader S → S × Option ReadError → StreamReader S × Option ReadError
  closed_input a (s, e) = (record a { world = s; closed = true }, e)

  unfoldable pub close : StreamReader S → StreamReader S × Option ReadError
  unfolding closed_input abandon
  close a = let a' = abandon a in if a.closed then (a', none) else closed_input a' (o.close a.world)
