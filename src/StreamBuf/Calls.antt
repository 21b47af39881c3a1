-- ===== src/StreamBuf/Calls.antt =====
-- The steps of the goroutine and the calls of the reader in any order, and what is read ahead between
-- them (internal/engine/streambuf/reader.go).
use varc.Base.{
  ℕ, zero, suc, ◌≡◌, ◌∙◌, ap, sym, refl, arith, Bool, true, false, Option, none, some, List, [],
  ◌∷◌, ◌++◌, length, take, drop, append_assoc, append_nil, drop-drop, ◌==◌,
}
use varc.StreamBuf.{
  Buffer, StreamReader, Input, left, is_drained, increment, ReadResult, has_read, blocked, read,
  stop_buffering, produce, notice_exit,
}

-- A step of the goroutine, or a call of the reader.
pub data StreamCall : Type 0 where
  produces notices_exit stops : StreamCall
  reads : ℕ → StreamCall

pub take-drop : (n : ℕ) (xs : List ℕ) → take n xs ++ drop n xs ≡ xs
take-drop zero xs = refl
take-drop (suc n) [] = refl
take-drop (suc n) (x ∷ xs) = ap (◌∷◌ x) (take-drop n xs)

abbrev pub concat_left : List Buffer → List ℕ
concat_left [] = []
concat_left (b ∷ bs) = left b ++ concat_left bs

pub concat_left-append :
    (bs : List Buffer) (b : Buffer) → concat_left (bs ++ b ∷ []) ≡ concat_left bs ++ left b
concat_left-append [] b = append_nil (left b)
concat_left-append (c ∷ bs) b =
    ap (λ x. left c ++ x) (concat_left-append bs b)
    ∙ sym (append_assoc (left c) (concat_left bs) (left b))

abbrev pub cur_left : Option Buffer → List ℕ
cur_left none = []
cur_left (some b) = left b

abbrev pub held : Option Buffer → ℕ
held none = 0
held (some b) = 1

-- What was read ahead and not yet returned.
abbrev pub pending : {S : Type 0} → StreamReader S → List ℕ
pending a = cur_left a.cur ++ concat_left a.ready

pub drained_left : (b : Buffer) → is_drained (some b) ≡ true → left b ≡ []
unfolding is_drained
drained_left b h = go (left b) h
  where
    go : (l : List ℕ) → length l == 0 ≡ true → l ≡ []
    go [] h = refl
    go (x ∷ l) h = absurd (ground (arith, h))

-- What is pending after a copy of `n` bytes.
pub left-increment : (b : Buffer) (n : ℕ) → left (increment b n) ≡ drop n (left b)
unfolding left increment
left-increment b n = sym (drop-drop n b.offset b.buf)

abbrev pub has_step : {S : Type 0} → Option (StreamReader S) → Bool
has_step none = false
has_step (some a) = true

-- What a call does to the reader, and the bytes that it returns.
abbrev pub answered : {S : Type 0} → ReadResult S → StreamReader S × List ℕ
answered (has_read a bytes e) = (a, bytes)
answered (blocked a) = (a, [])

abbrev pub stepped :
    {S : Type 0} → StreamReader S → Option (StreamReader S) → StreamReader S × List ℕ
stepped a none = (a, [])
stepped a (some a') = (a', [])

module _ {S : Type 0} (o : Input S) where
  abbrev pub stream_call : StreamReader S → StreamCall → StreamReader S × List ℕ
  stream_call a produces = stepped a (produce o a)
  stream_call a notices_exit = stepped a (notice_exit a)
  stream_call a stops = (stop_buffering a, [])
  stream_call a (reads n) = answered (read a n)

  abbrev pub stream_run : StreamReader S → List StreamCall → StreamReader S × List ℕ
  stream_run a [] = (a, [])
  stream_run a (c ∷ cs) =
      let step = stream_call a c in let rest = stream_run step.0 cs in (rest.0, step.1 ++ rest.1)
