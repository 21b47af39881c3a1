-- ===== src/ObjectIo/Reads.antt =====
-- What `RetryReader.Read` returns, whatever fails (internal/engine/objectio/retry_reader.go).
use varc.Base.{
  ℕ, min, zero, suc, ◌+◌, ◌-◌, ◌<◌, ◌≤◌, ◌≡◌, ◌≢◌, ◌∙◌, sym, subst, inl, inr, refl, arith, true,
  false, Option, none, some, List, [], ◌∷◌, ◌++◌, length, get_or, length-append, add64, int64_half,
  Bool-cases, Option-cases,
}
use varc.Base.Int64.{add64_small}
use varc.ObjectIo.{
  Span, ReadError, eof, reader_closed, too_many_opens, failed, Object, RetryReader, Reading,
  new_reader, is_eof, is_no_retry, reopen, resumed, recover, add_bytes, take_in, done_with, is_done,
  read_loop, read_unless, read, open_retrying,
}
use varc.ObjectIo.Spans.{span_start, span_stop, IsObject, Progresses, IsReader, new_reader-IsReader}
use varc.ObjectIo.Reopen.{IsLive, Reopened, with_reader, open_object-Reopened, reopen-Reopened}

pub bytes_append :
    (f : ℕ → ℕ) (xs ys : List ℕ)
    → ((i : ℕ) → i < length xs → get_or xs i 0 ≡ f i)
    → ((i : ℕ) → i < length ys → get_or ys i 0 ≡ f (length xs + i))
    → (i : ℕ) → i < length (xs ++ ys)
    → get_or (xs ++ ys) i 0 ≡ f i
bytes_append f [] ys hx hy i lt =
    let place : 0 + i ≡ i = omega arith in subst (λ j. get_or ys i 0 ≡ f j) place (hy i lt)
bytes_append f (x ∷ xs) ys hx hy zero lt = hx 0 (omega arith)
bytes_append f (x ∷ xs) ys hx hy (suc i) lt =
    bytes_append (λ j. f (suc j)) xs ys (λ j less. hx (suc j) (omega arith))
      (λ j less.
        let place : suc (length xs) + j ≡ suc (length xs + j) = omega arith in
        subst (λ k. get_or ys j 0 ≡ f k) place (hy j less))
      i (omega arith)

not_done : (e : Option ReadError) (left : ℕ) → done_with e left ≡ false → (e ≡ none) × (0 < left)
unfolding done_with
not_done none left h = (refl, ground arith)
not_done (some e) left h = cc

done_left : (e : Option ReadError) (left : ℕ) → done_with e left ≡ true → e ≡ none → left ≡ 0
unfolding done_with
done_left none left h n = ground arith
done_left (some e) left h n = cc

done_some : (e : ReadError) (left : ℕ) → done_with (some e) left ≡ true
unfolding done_with
done_some e left = refl

eof_only : (e : ReadError) → is_eof e ≡ true → e ≡ eof
unfolding is_eof
eof_only eof h = refl
eof_only reader_closed h = cc
eof_only too_many_opens h = cc
eof_only (failed e b) h = cc

not_eof : (e : ReadError) → is_eof e ≡ false → some e ≢ some eof
unfolding is_eof
not_eof eof h = cc
not_eof reader_closed h = λ m. cc
not_eof too_many_opens h = λ m. cc
not_eof (failed e b) h = λ m. cc

module _ {ℓ} {S : Type ℓ} (o : Object S) (origin : ℕ → ℕ) (size : ℕ) (pos stop : S → ℕ)
    (object : IsObject o origin size pos stop) (size_small : size < int64_half)
    (begin fin : ℕ) where
  -- What holds at each round of `Read` of `want` bytes by a reader that has consumed `from`.
  record Good (from want : ℕ) (w : Reading S) : Type ℓ where
    reader : IsReader size begin fin w.reader
    offset : w.reader.offset ≡ from + length w.bytes
    room : length w.bytes + w.left ≡ want
    sound : (i : ℕ) → i < length w.bytes → get_or w.bytes i 0 ≡ origin (begin + from + i)
    fits : begin + w.reader.offset ≤ size
    live :
        w.reader.err ≡ none
        → IsLive o origin size pos stop object size_small begin fin w.reader w.world
    clean : w.err ≡ none → w.reader.err ≡ none
    ended : w.err ≡ some eof → begin + w.reader.offset ≡ min size fin

  -- How many rounds may follow.
  abbrev measure : Reading S → ℕ
  measure w = w.left + (w.reader.max_tries - w.reader.tries)

  sound_append :
      (from : ℕ) (xs ys : List ℕ)
      → ((i : ℕ) → i < length xs → get_or xs i 0 ≡ origin (begin + from + i))
      → ((i : ℕ) → i < length ys → get_or ys i 0 ≡ origin (begin + (from + length xs) + i))
      → (i : ℕ) → i < length (xs ++ ys)
      → get_or (xs ++ ys) i 0 ≡ origin (begin + from + i)
  sound_append from xs ys hx hy i lt =
      bytes_append (λ j. origin (begin + from + j)) xs ys hx
        (λ j less.
          let place : begin + (from + length xs) + j ≡ begin + from + (length xs + j) =
            omega arith in
          subst (λ x. get_or ys j 0 ≡ origin x) place (hy j less))
        i lt

  add_bytes-Good :
      (from want : ℕ) (w : Reading S)
      → Good from want w
      → w.err ≡ none
      → Good from want (add_bytes w (o.read w.world w.left).0 (o.read w.world w.left).1.0)
  unfolding add_bytes
  add_bytes-Good from want w g e =
      let got : List ℕ = (o.read w.world w.left).1.0 in
      let l = g.live (g.clean e) in
      let in_size : begin + w.reader.offset + length got ≤ size =
        subst (λ x. x + length got ≤ size) l.stands
          (object.within w.world w.left (subst (λ x. x ≤ size) (sym l.stands) g.fits)) in
      let small : w.reader.offset + length got < int64_half = omega arith in
      let add : add64 w.reader.offset (length got) ≡ w.reader.offset + length got =
        add64_small w.reader.offset (length got) small in
      record {
        reader = record {
          starts = g.reader.starts;
          base_start = g.reader.base_start;
          base_stop = g.reader.base_stop;
          ends = g.reader.ends;
          small = g.reader.small;
          nothing = g.reader.nothing;
        };
        offset = omega (arith, add, g.offset, length-append w.bytes got);
        room = omega (arith, g.room, object.bound w.world w.left, length-append w.bytes got);
        sound =
            sound_append from w.bytes got g.sound
              (λ i lt. object.sound w.world w.left i lt ∙ rw (l.stands, g.offset) refl);
        fits = omega (arith, add);
        live = λ _. record {
          stands = omega (arith, object.moves w.world w.left, l.stands, add);
          until = object.keeps w.world w.left ∙ l.until;
        };
        clean = λ _. g.clean e;
        ended = λ n. cc;
      }

  -- The reading goes on with a smaller measure, or it ends.
  Smaller : Reading S → Reading S → Type 0
  Smaller w w' = w'.err ≡ none → measure w' < measure w

  set_err :
      (from want : ℕ) (w : Reading S) (h : RetryReader) (s : S) (e : Option ReadError)
      → Good from want w
      → IsReader size begin fin h
      → h.offset ≡ w.reader.offset
      → (h.err ≡ none → IsLive o origin size pos stop object size_small begin fin h s)
      → (e ≡ none → h.err ≡ none)
      → (e ≡ some eof → begin + w.reader.offset ≡ min size fin)
      → Good from want (record w { reader = h; world = s; err = e })
  set_err from want w h s e g v same live clean ended = record {
    reader = v;
    offset = same ∙ g.offset;
    room = g.room;
    sound = g.sound;
    fits = rw same g.fits;
    live = live;
    clean = clean;
    ended = λ n. rw same (ended n);
  }

  resumed-Good :
      (from want : ℕ) (w : Reading S) (e : ReadError) (h : RetryReader) (s : S)
      → Good from want w
      → is_eof e ≡ false
      → Reopened o origin size pos stop object size_small begin fin w.reader h s
      → Good from want (resumed w e (h, s)) × Smaller w (resumed w e (h, s))
  unfolding resumed Smaller
  resumed-Good from want w e h s g other r = elim (Option-cases h.err) [
    | inl n ↦ simp n (
      set_err from want w h s none g r.reader r.offset r.live (λ _. n) (λ m. cc),
      λ _. omega (arith, r.tried n, r.enough n, r.max_tries),
    )
    | inr (x, n) ↦ simp n (
      set_err from want w h s (some e) g r.reader r.offset r.live (λ m. cc)
          (λ m. absurd (not_eof e other m)),
      λ m. cc,
    )
  ]

  recover-Good :
      (from want : ℕ) (w : Reading S) (e : ReadError)
      → Good from want w
      → w.err ≡ none
      → (e ≡ eof → begin + w.reader.offset ≡ min size fin)
      → Good from want (recover o w e) × Smaller w (recover o w e)
  unfolding recover Smaller
  recover-Good from want w e g clear at_end = elim (Bool-cases (is_eof e)) [
    | inl y ↦ rw y (
      set_err from want w w.reader w.world (some e) g g.reader refl g.live (λ m. cc)
          (λ _. at_end (eof_only e y)),
      λ m. cc,
    )
    | inr n ↦ rw n (elim (Bool-cases (is_no_retry e)) [
      | inl y ↦ rw y (
        set_err from want w (record (w.reader) { err = some e }) w.world (some e) g
            (with_reader o origin size pos stop object size_small begin fin (some e) w.reader.opened
              w.reader.tries g.reader)
            refl (λ m. cc) (λ m. cc) (λ m. absurd (not_eof e n m)),
        λ m. cc,
      )
      | inr y ↦
          let h : RetryReader = record (w.reader) { err = some e } in
          let r =
            reopen-Reopened o origin size pos stop object size_small begin fin h w.world
              (with_reader o origin size pos stop object size_small begin fin (some e)
                w.reader.opened w.reader.tries g.reader)
              g.fits in
          rw y (
            resumed-Good from want w e (reopen o h w.world).0 (reopen o h w.world).1 g n (record {
              reader = r.reader;
              offset = r.offset;
              max_tries = r.max_tries;
              live = r.live;
              tried = r.tried;
              enough = r.enough;
            }))
    ])
  ]

  shrinks :
      (w : Reading S)
      → measure (add_bytes w (o.read w.world w.left).0 (o.read w.world w.left).1.0)
        ≡ (w.left - length (o.read w.world w.left).1.0) + (w.reader.max_tries - w.reader.tries)
  unfolding add_bytes
  shrinks w = refl

  take_in-Good :
      (from want : ℕ) (w : Reading S)
      → Progresses o
      → Good from want w
      → w.err ≡ none
      → 0 < w.left
      → Good from want (take_in o w (o.read w.world w.left))
        × Smaller w (take_in o w (o.read w.world w.left))
  unfolding take_in Smaller add_bytes
  take_in-Good from want w progress g clear some_left =
      let added = add_bytes-Good from want w g clear in
      let live = g.live (g.clean clear) in
      elim (Option-cases (o.read w.world w.left).1.1) [
        | inl n ↦
            rw (n, take_in)
              (added, λ _. omega (arith, shrinks w, progress w.world w.left some_left n))
        | inr (e, n) ↦
            let now = object.ends w.world w.left in
            let there = added.live (added.clean refl) in
            let r =
              recover-Good from want
                (add_bytes w (o.read w.world w.left).0 (o.read w.world w.left).1.0) e added refl
                (λ m. sym there.stands ∙ now (rw (n, m) refl) ∙ live.until) in
            rw (n, take_in) (r.0, λ m. omega (arith, shrinks w, r.1 m))
      ]

  -- What `Read` of `want` bytes by the reader `h` returns and leaves: the object's bytes from where
  -- the reader was, all of them if there is no error, up to the reader's end or the object's if the error is EOF; the
  -- reader moves on by as many, and unless it has failed the stream stands there.
  pub record Reads (h : RetryReader) (want : ℕ) (w : Reading S) : Type 0 where
    pub reader : IsReader size begin fin w.reader
    pub offset : w.reader.offset ≡ h.offset + length w.bytes
    pub bounded : length w.bytes ≤ want
    pub sound : (i : ℕ) → i < length w.bytes → get_or w.bytes i 0 ≡ origin (begin + h.offset + i)
    pub full : w.err ≡ none → length w.bytes ≡ want
    pub ended : w.err ≡ some eof → begin + w.reader.offset ≡ min size fin
    pub live :
        w.reader.err ≡ none
        → IsLive o origin size pos stop object size_small begin fin w.reader w.world

  abbrev pub ReadsSome : RetryReader → ℕ → Option (Reading S) → Type 0
  ReadsSome h want none = ⊥
  ReadsSome h want (some w) = Reads h want w

  read_loop_done : (rounds : ℕ) (w : Reading S) → is_done w ≡ true → read_loop o rounds w ≡ some w
  unfolding read_loop
  read_loop_done zero w e = rw e refl
  read_loop_done (suc rounds) w e = rw e refl

  done-Reads :
      (h : RetryReader) (want : ℕ) (w : Reading S)
      → Good h.offset want w
      → is_done w ≡ true
      → Reads h want w
  done-Reads h want w g e = record {
    reader = g.reader;
    offset = g.offset;
    bounded = omega (arith, g.room);
    sound = g.sound;
    full = λ n. omega (arith, g.room, done_left w.err w.left e n);
    ended = g.ended;
    live = g.live;
  }

  read_loop-Reads :
      (h : RetryReader) (want rounds : ℕ) (w : Reading S)
      → Progresses o
      → Good h.offset want w
      → measure w ≤ rounds
      → ReadsSome h want (read_loop o rounds w)
  unfolding read_loop Smaller
  read_loop-Reads h want zero w progress g le = elim (Bool-cases (is_done w)) [
    | inl e ↦ rw e (done-Reads h want w g e)
    | inr e ↦ absurd (omega (arith, (not_done w.err w.left e).1))
  ]
  read_loop-Reads h want (suc rounds) w progress g le = elim (Bool-cases (is_done w)) [
    | inl e ↦ rw e (done-Reads h want w g e)
    | inr e ↦
        let n = not_done w.err w.left e in
        let r = take_in-Good h.offset want w progress g n.0 n.1 in
        let w' = take_in o w (o.read w.world w.left) in
        rw e (elim (Option-cases w'.err) [
          | inl m ↦ read_loop-Reads h want rounds w' progress r.0 (omega (arith, r.1 m))
          | inr (x, m) ↦
              let over : is_done w' ≡ true = rw m (done_some x w'.left) in
              rw (read_loop_done rounds w' over) (done-Reads h want w' r.0 over)
        ])
  ]

  -- Take a reader that can read on, of an object whose reads make progress. Enough rounds are given
  -- by the bytes wanted and the tries left. Then `Read` ends, whatever fails, and returns the object's
  -- bytes from where the reader was: all that were wanted if there is no error, up to the reader's
  -- end, or the object's if that is before, if the error is EOF. The reader has moved on by as many, and unless it has failed it can
  -- read on from there.
  pub read-Reads :
      (h : RetryReader) (s : S) (want rounds : ℕ)
      → Progresses o
      → IsReader size begin fin h
      → h.err ≡ none
      → IsLive o origin size pos stop object size_small begin fin h s
      → begin + h.offset ≤ size
      → want + (h.max_tries - h.tries) ≤ rounds
      → ReadsSome h want (read o rounds h s want)
  unfolding read read_unless
  read-Reads h s want rounds progress v clear live fits enough =
      subst (λ e. ReadsSome h want (read_unless o rounds h s want e)) (sym clear)
        (read_loop-Reads h want rounds _ progress
          (record {
            reader = v;
            offset = omega arith;
            room = omega arith;
            sound = λ i lt. absurd (omega arith);
            fits = fits;
            live = λ _. live;
            clean = λ _. clear;
            ended = λ m. cc;
          })
          enough)

  -- The reader of `OpenRetrying`.
  open_retrying-IsReader :
      (max_tries : ℕ) (span : Option Span) (s : S)
      → span_start span ≡ begin
      → span_stop size span ≡ fin
      → begin ≤ size
      → fin < int64_half
      → (fin ≡ 0 → size ≡ 0)
      → (open_retrying o size max_tries span s).0.err ≡ none
      → IsReader size begin fin (open_retrying o size max_tries span s).0
        × ((open_retrying o size max_tries span s).0.offset ≡ 0)
        × IsLive o origin size pos stop object size_small begin fin
            (open_retrying o size max_tries span s).0
            (open_retrying o size max_tries span s).1
  unfolding open_retrying
  open_retrying-IsReader max_tries span s at until lo hi nothing ok =
      let v = new_reader-IsReader size begin fin max_tries span at until hi nothing in
      let r =
        open_object-Reopened o origin size pos stop object size_small begin fin
          (new_reader size max_tries span) s v.0 (omega (arith, v.1)) in
      (r.reader, r.offset ∙ v.1, r.live ok)

  -- Take an object whose reads make progress and a span that begins inside of it, whose end is an int64 after the
  -- addition of one and is not 0 unless the object is empty; the span may end after the object. If `OpenRetrying`
  -- succeeds, then the first `Read` of its reader ends, whatever fails, given as many rounds as there are bytes wanted and tries:
  -- it returns the object's bytes from the span's begin on, all that were wanted if there is no error, up to the span's end or
  -- the object's, whichever is before, if the error is EOF.
  pub read-open_retrying :
      (max_tries : ℕ) (span : Option Span) (s : S) (want rounds : ℕ)
      → Progresses o
      → span_start span ≡ begin
      → span_stop size span ≡ fin
      → begin ≤ size
      → fin < int64_half
      → (fin ≡ 0 → size ≡ 0)
      → want + (open_retrying o size max_tries span s).0.max_tries ≤ rounds
      → (open_retrying o size max_tries span s).0.err ≡ none
      → ReadsSome (open_retrying o size max_tries span s).0 want (
          read o rounds
            (open_retrying o size max_tries span s).0
            (open_retrying o size max_tries span s).1
            want)
  read-open_retrying max_tries span s want rounds progress at until lo hi nothing enough ok =
      let (v, at_start, live) = open_retrying-IsReader max_tries span s at until lo hi nothing ok in
      let (h, s') = open_retrying o size max_tries span s in
      read-Reads h s' want rounds progress v ok live (omega (arith, at_start))
        (omega (arith, enough))
