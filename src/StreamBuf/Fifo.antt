-- ===== src/StreamBuf/Fifo.antt =====
-- Whatever the goroutine and the reader do in turn, the bytes come out in the order in which they are in
-- the source, and no token and no buffer of the pool is lost (internal/engine/streambuf/reader.go).
use mathlib.Core.Option.{some-injective}
use varc.Base.{
  ℕ, suc, ◌+◌, ◌<◌, ◌≡◌, ◌∙◌, ap, sym, subst, inl, inr, refl, arith, min, true, not, ◌||◌, Option,
  none, some, List, [], ◌∷◌, ◌++◌, length, take, length-append, append_assoc, append_nil, ◌==◌,
  Bool-cases,
}
use varc.ObjectIo.{ReadError}
use varc.StreamBuf.{
  Buffer, StreamReader, Input, new_stream, left, is_drained, increment, Filling, filled, waits,
  ended, receive, give_back, fill_from, fill, ReadResult, has_read, blocked, copied, read_filled,
  read, stop_buffering, produced, produce, notice_exit, next_size,
}
use varc.StreamBuf.Produced.{segment, append-segment, Takes, IsInput, read_fill-Takes}
use varc.StreamBuf.Calls.{
  StreamCall, produces, notices_exit, stops, reads, stream_call, stream_run, take-drop, concat_left,
  concat_left-append, cur_left, held, pending, drained_left, left-increment, has_step, answered,
  stepped,
}

module _ {S : Type 0} (origin : ℕ → ℕ) (pos : S → ℕ) (begin buffers : ℕ) where
  -- `out` was returned: with what is pending these are the bytes of the source from `begin` to where the
  -- source stands; each token is there or stands for a buffer that is held, and so does each buffer of the pool.
  pub record IsStream (out : List ℕ) (a : StreamReader S) : Type 0 where
    pub moves : pos a.world ≡ begin + length (out ++ pending a)
    pub bytes : out ++ pending a ≡ segment origin begin (length (out ++ pending a))
    pub tokens : a.tokens + length a.ready + held a.cur ≡ buffers
    pub pool : a.taken ≡ a.returned + length a.ready + held a.cur

  -- A step that takes nothing from the source.
  same-IsStream :
      (out out' : List ℕ) (a a' : StreamReader S)
      → IsStream out a
      → a'.world ≡ a.world
      → out' ++ pending a' ≡ out ++ pending a
      → a'.tokens + length a'.ready + held a'.cur ≡ buffers
      → a'.taken ≡ a'.returned + length a'.ready + held a'.cur
      → IsStream out' a'
  same-IsStream out out' a a' g world all tokens pool = record {
    moves = rw (world, all) g.moves;
    bytes = rw all g.bytes;
    tokens = tokens;
    pool = pool;
  }

  abbrev Kept : List ℕ → Filling S → Type 0
  Kept out (filled a b) = IsStream out a × (a.cur ≡ some b)
  Kept out (waits a) = IsStream out a
  Kept out (ended a e) = IsStream out a

  receive-Kept :
      (out : List ℕ) (a : StreamReader S) (l : List Buffer)
      → IsStream out a
      → a.ready ≡ l
      → a.cur ≡ none
      → Kept out (receive a l)
  unfolding receive
  receive-Kept out a [] g e f = elim (Bool-cases a.exited) [ inl y ↦ simp y g | inr n ↦ simp n g ]
  receive-Kept out a (b ∷ rest) g e f = (
    same-IsStream out out a (record a { cur = some b; ready = rest }) g refl
        (ap (λ x. out ++ x)
          (sym (ap (λ c. cur_left c ++ concat_left a.ready) f ∙ ap concat_left e)))
        (omega (arith, g.tokens, ap length e, ap held f))
        (omega (arith, g.pool, ap length e, ap held f)),
    refl,
  )

  fill_from-Kept :
      (out : List ℕ) (a : StreamReader S) (o : Option Buffer)
      → IsStream out a
      → a.cur ≡ o
      → Kept out (fill_from a o)
  unfolding fill_from give_back
  fill_from-Kept out a none g e = receive-Kept out a a.ready g refl e
  fill_from-Kept out a (some b) g e = elim (Bool-cases (is_drained (some b))) [
    | inl y ↦ simp y (
        let a' : StreamReader S = record a {
          cur = none;
          tokens = suc a.tokens;
          returned = suc a.returned;
        } in
        receive-Kept out a' a'.ready
          (same-IsStream out out a a' g refl
            (ap (λ x. out ++ x)
              (sym (
                ap (λ c. cur_left c ++ concat_left a.ready) e
                ∙ ap (λ x. x ++ concat_left a.ready) (drained_left b y))))
            (omega (arith, g.tokens, ap held e)) (omega (arith, g.pool, ap held e)))
          refl refl)
    | inr n ↦ simp n (g, e)
  ]

  abbrev After : List ℕ → ReadResult S → Type 0
  After out (has_read a bytes e) = IsStream (out ++ bytes) a
  After out (blocked a) = IsStream out a

  taken-IsStream :
      (out : List ℕ) (a : StreamReader S) (b : Buffer) (m : ℕ) (err : Option ReadError)
      → IsStream out a
      → a.cur ≡ some b
      → IsStream (out ++ take m (left b)) (record a { cur = some (increment b m); err = err })
  taken-IsStream out a b m err g e =
      let rest : List ℕ = concat_left a.ready in
      same-IsStream out (out ++ take m (left b)) a
        (record a { cur = some (increment b m); err = err }) g refl
        (append_assoc out (take m (left b)) (left (increment b m) ++ rest)
          ∙ ap (λ x. out ++ x)
              (sym (append_assoc (take m (left b)) (left (increment b m)) rest)
                ∙ ap (λ x. x ++ rest)
                    (ap (λ x. take m (left b) ++ x) (left-increment b m) ∙ take-drop m (left b))
                ∙ sym (ap (λ c. cur_left c ++ rest) e)))
        (omega (arith, g.tokens, ap held e)) (omega (arith, g.pool, ap held e))

  copied-After :
      (out : List ℕ) (a : StreamReader S) (b : Buffer) (n : ℕ)
      → IsStream out a
      → a.cur ≡ some b
      → After out (copied a b n)
  unfolding copied
  copied-After out a b n g e =
      let m : ℕ = min n (length (left b)) in
      elim (Bool-cases (is_drained (some (increment b m)))) [
        | inl y ↦ rw y (taken-IsStream out a b m b.err g e)
        | inr z ↦ rw z (taken-IsStream out a b m a.err g e)
      ]

  read-After : (out : List ℕ) (a : StreamReader S) (n : ℕ) → IsStream out a → After out (read a n)
  unfolding read fill
  read-After out a n g = go (fill_from a a.cur) (fill_from-Kept out a a.cur g refl)
    where
      go : (f : Filling S) → Kept out f → After out (read_filled n f)
      go (filled a b) (g, e) = copied-After out a b n g e
      go (waits a) g = g
      go (ended a e) g = subst (λ x. IsStream x a) (sym (append_nil out)) g

  module _ (o : Input S) (input : IsInput origin pos o) where
    produced-IsStream :
        (out : List ℕ) (a : StreamReader S) (r : S × List ℕ × Option ReadError)
        (a' : StreamReader S)
        → IsStream out a
        → 0 < a.tokens
        → Takes origin pos a.world r
        → produced o a (some r) ≡ some a'
        → IsStream out a'
    unfolding produced left
    produced-IsStream out a (s, bytes, e) a' g some_token t f =
        let b : Buffer = record { buf = bytes; err = e; offset = 0 } in
        let all : out ++ (cur_left a.cur ++ concat_left (a.ready ++ b ∷ []))
            ≡ (out ++ pending a) ++ bytes =
          ap (λ x. out ++ (cur_left a.cur ++ x)) (concat_left-append a.ready b)
          ∙ ap (λ x. out ++ x) (sym (append_assoc (cur_left a.cur) (concat_left a.ready) bytes))
          ∙ sym (append_assoc out (pending a) bytes) in
        subst (IsStream out) (some-injective _ _ f) (record {
          moves = rw all (omega (arith, t.moves, g.moves, length-append (out ++ pending a) bytes));
          bytes = rw all (
              append-segment origin begin (pos a.world) (out ++ pending a) bytes g.bytes g.moves
                t.bytes);
          tokens = omega (arith, g.tokens, some_token, length-append a.ready (b ∷ []));
          pool = omega (arith, g.pool, length-append a.ready (b ∷ []));
        })

    -- A step of the goroutine is possible as soon as it has a token: ReadFill ends.
    pub produce-steps :
        (out : List ℕ) (a : StreamReader S)
        → IsStream out a
        → (has_step (produce o a) ≡ not (a.exited || (a.tokens == 0)))
          × ((a' : StreamReader S) → produce o a ≡ some a' → IsStream out a')
    unfolding produce
    produce-steps out a g = elim (Bool-cases (a.exited || (a.tokens == 0))) [
      | inl y ↦ rw y (refl, λ a' e. cc)
      | inr z ↦
          let (r, run, t) =
            read_fill-Takes origin pos o input (next_size a.size) a.world (next_size a.size)
              (omega arith) in
          rw (z, run) (refl, λ a' e. produced-IsStream out a r a' g (ground (arith, z)) t e)
    ]

    stepped-IsStream :
        (out : List ℕ) (a : StreamReader S) (next : Option (StreamReader S))
        → IsStream out a
        → ((a' : StreamReader S) → next ≡ some a' → IsStream out a')
        → IsStream (out ++ (stepped a next).1) (stepped a next).0
    stepped-IsStream out a none g h = subst (λ x. IsStream x a) (sym (append_nil out)) g
    stepped-IsStream out a (some a') g h =
        subst (λ x. IsStream x a') (sym (append_nil out)) (h a' refl)

    answered-IsStream :
        (out : List ℕ) (r : ReadResult S)
        → After out r
        → IsStream (out ++ (answered r).1) (answered r).0
    answered-IsStream out (has_read a bytes e) g = g
    answered-IsStream out (blocked a) g = subst (λ x. IsStream x a) (sym (append_nil out)) g

    notice_exit-IsStream :
        (out : List ℕ) (a : StreamReader S)
        → IsStream out a
        → (a' : StreamReader S) → notice_exit a ≡ some a'
        → IsStream out a'
    unfolding notice_exit
    notice_exit-IsStream out a g a' e = elim (Bool-cases (a.exited || not a.exit)) [
      | inl y ↦ let f = rw y at e in cc
      | inr z ↦
          let f = rw z at e in
          subst (IsStream out) (some-injective _ _ f)
            (same-IsStream out out a (record a { exited = true }) g refl refl g.tokens g.pool)
    ]

    stream_call-IsStream :
        (out : List ℕ) (a : StreamReader S) (c : StreamCall)
        → IsStream out a
        → IsStream (out ++ (stream_call o a c).1) (stream_call o a c).0
    unfolding stop_buffering
    stream_call-IsStream out a produces g =
        stepped-IsStream out a (produce o a) g (produce-steps out a g).1
    stream_call-IsStream out a notices_exit g =
        stepped-IsStream out a (notice_exit a) g (notice_exit-IsStream out a g)
    stream_call-IsStream out a stops g =
        same-IsStream out (out ++ []) a (stop_buffering a) g refl
          (ap (λ x. x ++ pending a) (append_nil out)) g.tokens g.pool
    stream_call-IsStream out a (reads n) g = answered-IsStream out (read a n) (read-After out a n g)

    stream_run-IsStream :
        (out : List ℕ) (a : StreamReader S) (calls : List StreamCall)
        → IsStream out a
        → IsStream (out ++ (stream_run o a calls).1) (stream_run o a calls).0
    stream_run-IsStream out a [] g = subst (λ x. IsStream x a) (sym (append_nil out)) g
    stream_run-IsStream out a (c ∷ cs) g =
        let step : StreamReader S × List ℕ = stream_call o a c in
        subst (λ x. IsStream x (stream_run o step.0 cs).0)
          (append_assoc out step.1 (stream_run o step.0 cs).1)
          (stream_run-IsStream (out ++ step.1) step.0 cs (stream_call-IsStream out a c g))

new_stream-IsStream :
    {S : Type 0} (origin : ℕ → ℕ) (pos : S → ℕ) (s : S) (buffers : ℕ) (a : StreamReader S)
    → new_stream s buffers ≡ some a
    → IsStream origin pos (pos s) buffers [] a
unfolding new_stream
new_stream-IsStream origin pos s buffers a e = elim (Bool-cases (buffers == 0)) [
  | inl y ↦ let f = rw y at e in cc
  | inr z ↦
      let f = rw z at e in
      subst (IsStream origin pos (pos s) buffers []) (some-injective _ _ f)
        (record { moves = omega arith; bytes = refl; tokens = omega arith; pool = omega arith })
]

-- For a source whose reads return the next bytes, and at least one or an error: whatever steps the
-- goroutine takes and whatever is read, in any order, the bytes returned and those that are read ahead and pending
-- are, in order, the bytes of the source from where it stood to where it stands. Each of the `buffers`
-- tokens is there or stands for a buffer that is ready or current, each buffer taken from the pool is one
-- of these or went back, and a round of the goroutine ends as soon as it has a token.
pub stream_run-fifo :
    {S : Type 0} (origin : ℕ → ℕ) (pos : S → ℕ) (o : Input S) (s : S) (buffers : ℕ)
    (a : StreamReader S) (calls : List StreamCall)
    → IsInput origin pos o
    → new_stream s buffers ≡ some a
    → let r = stream_run o a calls in
      IsStream origin pos (pos s) buffers r.1 r.0
      × (has_step (produce o r.0) ≡ not (r.0.exited || (r.0.tokens == 0)))
stream_run-fifo origin pos o s buffers a calls input e =
    let g =
      stream_run-IsStream origin pos (pos s) buffers o input [] a calls
        (new_stream-IsStream origin pos s buffers a e) in
    (
      g,
      (produce-steps origin pos (pos s) buffers o input (stream_run o a calls).1
          (stream_run o a calls).0 g).0,
    )
