-- ===== src/PageBuffer/Copies.antt =====
-- internal/engine/bufferpool/reader_writer.go: `WriteTo` and `ReadFrom`. `none` is that the loop has not
-- ended after the given rounds.
pub mod Drains
mod Tests
use varc.Base.{
  ℕ, zero, suc, ◌+◌, ◌-◌, Bool, true, false, Option, none, some, List, [], ◌∷◌, length, take, ltb,
  ◌==◌, if◌then◌else◌,
}
use varc.PageBuffer.{
  Rw, RwError, closed_pipe, eof, other, at_eof, read_page, write_page, room, fill, Writer, observe,
  Put, put_on,
}

-- What the reader answers in a round of `ReadFrom`: bytes, at most as many as there is room for, and an
-- error, which is `none` in the inner option for EOF.
abbrev pub Answer : Type 0
Answer = List ℕ × Option (Option ℕ)

module _ {O : Type 0} where
  -- A round of `WriteTo` by what the writer answers, and the rounds after it.
  unfoldable pub and_more : ℕ → Option (Put O) → Option (Put O)
  and_more n none = none
  and_more n (some r) = some (record r { n = n + r.n })

  unfoldable pub took : Rw → O → ℕ → Option ℕ → Option (Put O) → Option (Put O)
  unfolding and_more
  took b o n (some e) rest = some (record { rw = b; seen = o; n = n; err = some (other e) })
  took b o n none rest = and_more n rest

  unfoldable pub write_to_loop : Writer O → ℕ → Rw → O → Option (Put O)
  write_to_loop w zero b o =
      if at_eof b then some (record { rw = b; seen = o; n = 0; err = none }) else none
  write_to_loop w (suc k) b o =
      let answer = w o (read_page b b.out) in
      let now : Rw = record b { out = b.out + answer.1 } in
      let rest = write_to_loop w k now answer.0 in
      if at_eof b
      then some (record { rw = b; seen = o; n = 0; err = none })
      else took now answer.0 answer.1 answer.2 rest

  -- `WriteTo`
  unfoldable pub write_to : Writer O → Rw → O → Option (Put O)
  write_to w b o =
      if b.closed
      then some (record { rw = b; seen = o; n = 0; err = some closed_pipe })
      else write_to_loop w (b.size - b.out) b o

  -- A round of `ReadFrom` by what the observer and the reader say, and the rounds after it.
  unfoldable pub read_on :
      Rw → ℕ → O × Option RwError → Option (Option ℕ) → Option (Put O) → Option (Put O)
  unfolding and_more
  read_on b n (o, some e) err rest = some (record { rw = b; seen = o; n = n; err = some e })
  read_on b n (o, none) none rest = and_more n rest
  read_on b n (o, none) (some none) rest = some (record { rw = b; seen = o; n = n; err = none })
  read_on b n (o, none) (some (some e)) rest =
      some (record { rw = b; seen = o; n = n; err = some (other e) })

  -- `ReadFrom`, given what the reader answers in turn; the observer is told of a round with bytes.
  unfoldable pub read_from_loop :
      Option (Writer O) → (ℕ → List ℕ) → Rw → O → List Answer → Option (Put O)
  read_from_loop watch gives b o [] = none
  read_from_loop watch gives b o ((bytes, err) ∷ answers) =
      let paged = write_page gives b in
      let part = take (room paged) bytes in
      let now = fill paged part in
      let seen = if ltb 0 (length part) then observe watch o part else (o, none) in
      let rest = read_from_loop watch gives now seen.0 answers in
      read_on now (length part) seen err rest

  unfoldable pub read_from :
      Option (Writer O) → (ℕ → List ℕ) → Rw → O → List Answer → Option (Put O)
  read_from watch gives b o answers =
      if b.closed
      then some (record { rw = b; seen = o; n = 0; err = some closed_pipe })
      else read_from_loop watch gives b o answers
