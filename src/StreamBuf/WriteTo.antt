-- ===== src/StreamBuf/WriteTo.antt =====
-- internal/engine/streambuf/reader.go: `WriteTo`.
use varc.Base.{ℕ, zero, suc, ◌+◌, Option, none, some, List}
use varc.ObjectIo.{ReadError, eof}
use varc.StreamBuf.{
  Buffer, StreamReader, left, increment, StreamError, source_failed, Filling, filled, waits, ended,
  fill,
}

-- `WriteTo`: the writer takes bytes and may fail.
pub record StreamWriter (W : Type 0) : Type 0 where
  pub write : W → List ℕ → W × ℕ × Option ReadError

pub data WriteResult (S W : Type 0) : Type 0 where
  has_written : StreamReader S → W → ℕ → Option StreamError → WriteResult S W
  blocked_after : StreamReader S → W → ℕ → WriteResult S W

module _ {S W : Type 0} (w : StreamWriter W) where
  unfoldable pub ended_write : StreamReader S → W → ℕ → StreamError → WriteResult S W
  ended_write a s n (source_failed eof) = has_written a s n none
  ended_write a s n e = has_written a s n (some e)

  unfoldable pub after_buffer :
      StreamReader S
      → Buffer
      → ℕ
      → W
      → ℕ
      → Option ReadError
      → Option (WriteResult S W)
      → Option (WriteResult S W)
  unfolding increment
  after_buffer a b n s n2 none more = more
  after_buffer a b n s n2 (some eof) more =
      some (has_written (record a { cur = some (increment b n2); err = some eof }) s (n + n2) none)
  after_buffer a b n s n2 (some e) more = some (
      has_written (record a { cur = some (increment b n2); err = some e }) s (n + n2)
        (some (source_failed e)))

  -- After a write: its error, the error of the buffer, or the next round.
  unfoldable pub after_write :
      StreamReader S
      → Buffer
      → ℕ
      → W × ℕ × Option ReadError
      → Option (WriteResult S W)
      → Option (WriteResult S W)
  unfolding increment after_buffer
  after_write a b n (s, n2, some e) more =
      some
        (has_written (record a { cur = some (increment b n2) }) s (n + n2) (some (source_failed e)))
  after_write a b n (s, n2, none) more = after_buffer a b n s n2 b.err more

  unfoldable pub write_filled :
      (StreamReader S → W → ℕ → Option (WriteResult S W))
      → W
      → ℕ
      → Filling S
      → Option (WriteResult S W)
  unfolding after_write ended_write left
  write_filled more s n (waits a) = some (blocked_after a s n)
  write_filled more s n (ended a e) = some (ended_write a s n e)
  write_filled more s n (filled a b) =
      let answer = w.write s (left b) in
      after_write a b n answer
        (more (record a { cur = some (increment b answer.1) }) answer.0 (n + answer.1))

  -- The loop, with a bound on its rounds; `none` is that it has not ended by then.
  unfoldable pub write_rounds : ℕ → StreamReader S → W → ℕ → Option (WriteResult S W)
  unfolding write_filled fill
  write_rounds zero a s n = none
  write_rounds (suc k) a s n = write_filled (write_rounds k) s n (fill a)
