-- ===== src/StreamBuf/Skip.antt =====
-- internal/engine/streambuf/reader.go: `SkipBytes`. The number of bytes is an int64.
use varc.Base.{
  ℕ, suc, ◌+◌, ◌-◌, ◌*◌, min, Bool, true, false, Option, none, some, List, [], ◌∷◌, length, ◌==◌,
  if◌then◌else◌, add64, lt64, le64,
}
use varc.ObjectIo.{ReadError}
use varc.StreamBuf.{
  stream_buffer_size, Buffer, StreamReader, left, is_drained, increment, has_error, abandon,
}

unfoldable pub end_of : Option ReadError → Option ReadError → Option ReadError
end_of none old = old
end_of (some e) old = some e

module _ {S : Type 0} where
  -- More is to be skipped: an error of the buffer ends that, and so does an empty channel.
  unfoldable pub not_skipped :
      StreamReader S → StreamReader S → Option ReadError → StreamReader S × Bool
  not_skipped a stuck none = (stuck, false)
  not_skipped a stuck (some e) = (record a { err = some e }, false)

  unfoldable pub skip_on :
      StreamReader S → Option ReadError → StreamReader S × Bool → StreamReader S × Bool
  skip_on a none more = more
  skip_on a (some e) more = (record a { err = some e }, false)

  -- `SkipBytes`: whether it skipped. `skip_in` is its loop from the increment on, where what is left to
  -- skip means that the buffer is empty; `refill` are the tokens that are not given back yet.
  unfoldable pub skip_in : StreamReader S → ℕ → ℕ → Buffer → List Buffer → StreamReader S × Bool
  unfolding left increment is_drained
  skip_in a refill skip b [] =
      let n = min (length (left b)) skip in
      let b' = increment b n in
      let done = record a {
        cur = some b';
        ready = [];
        tokens = a.tokens + refill;
        err = if is_drained (some b') then end_of b.err a.err else a.err;
      } in
      let stuck = record a { cur = none; ready = []; returned = suc a.returned } in
      if skip - n == 0
      then (done, true)
      else not_skipped (record a { cur = some b'; ready = [] }) stuck b.err
  skip_in a refill skip b (next ∷ rest) =
      let n = min (length (left b)) skip in
      let b' = increment b n in
      let done = record a {
        cur = some b';
        ready = next ∷ rest;
        tokens = a.tokens + refill;
        err = if is_drained (some b') then end_of b.err a.err else a.err;
      } in
      let more =
        skip_in (record a { returned = suc a.returned }) (suc refill) (skip - n) next rest in
      if skip - n == 0
      then (done, true)
      else skip_on (record a { cur = some b'; ready = next ∷ rest }) b.err more

  -- A negative skip goes back in the current buffer.
  unfoldable pub skip_back : StreamReader S → ℕ → Option Buffer → StreamReader S × Bool
  skip_back a skip none = (a, false)
  skip_back a skip (some b) =
      let offset = add64 b.offset skip in
      if le64 0 offset
      then (record a { cur = some (record b { offset = offset }) }, true)
      else (a, false)

  unfoldable pub skip_first : StreamReader S → ℕ → ℕ → List Buffer → StreamReader S × Bool
  unfolding skip_in
  skip_first a refill skip [] = (a, false)
  skip_first a refill skip (b ∷ rest) = skip_in a refill skip b rest

  unfoldable pub skip_forward : StreamReader S → ℕ → Option Buffer → StreamReader S × Bool
  unfolding skip_first skip_in is_drained
  skip_forward a skip none = skip_first a 0 skip a.ready
  skip_forward a skip (some b) =
      if is_drained (some b)
      then skip_first (record a { cur = none; returned = suc a.returned }) 1 skip a.ready
      else skip_in a 0 skip b a.ready

  unfoldable pub try_skip : StreamReader S → ℕ → StreamReader S × Bool
  unfolding skip_back skip_forward has_error
  try_skip a skip =
      if has_error a.err
      then (a, false)
      else (if lt64 skip 0
          then skip_back a skip a.cur
          else (if le64 ((length a.ready + 1) * stream_buffer_size) skip
              then (a, false)
              else skip_forward a skip a.cur))

  -- `SkipBytes`
  unfoldable pub skip_bytes : StreamReader S → ℕ → StreamReader S × Bool
  unfolding try_skip abandon
  skip_bytes a skip =
      let answer = try_skip a skip in if answer.1 then answer else (abandon answer.0, false)
