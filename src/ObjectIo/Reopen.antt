-- ===== src/ObjectIo/Reopen.antt =====
-- Opening an object again where a read failed (internal/engine/objectio/retry_reader.go).
use varc.Base.{
  ℕ, min, ap, ◌+◌, ◌<◌, ◌≤◌, ◌≡◌, ◌∙◌, inl, inr, refl, arith, Bool, true, false, Option, none, some,
  ltb, int64_half, Bool-cases, Option-cases,
}
use varc.ObjectIo.{
  ReadError, too_many_opens, Object, RetryReader, span_for_open, opening, open_object, reopen,
}
use varc.ObjectIo.Spans.{IsObject, IsReader, span_for_open_start, span_for_open_stop}

module _ {ℓ} {S : Type ℓ} (o : Object S) (origin : ℕ → ℕ) (size : ℕ) (pos stop : S → ℕ)
    (object : IsObject o origin size pos stop) (size_small : size < int64_half)
    (begin fin : ℕ) where
  -- The stream stands at the byte that the reader has reached, and ends where the reader does or with the object.
  pub record IsLive (h : RetryReader) (s : S) : Type 0 where
    pub stands : pos s ≡ begin + h.offset
    pub until : stop s ≡ min size fin

  -- The object is opened again at the same place, and the try is counted, or the reader has failed.
  pub record Reopened (h : RetryReader) (h' : RetryReader) (s' : S) : Type 0 where
    pub reader : IsReader size begin fin h'
    pub offset : h'.offset ≡ h.offset
    pub max_tries : h'.max_tries ≡ h.max_tries
    pub live : h'.err ≡ none → IsLive h' s'
    pub tried : h'.err ≡ none → h'.tries ≡ h.tries + 1
    pub enough : h'.err ≡ none → h'.tries ≤ h.max_tries

  pub with_reader :
      {h : RetryReader} (e : Option ReadError) (b : Bool) (t : ℕ)
      → IsReader size begin fin h
      → IsReader size begin fin (record h { err = e; opened = b; tries = t })
  with_reader e b t v = record {
    starts = v.starts;
    base_start = v.base_start;
    base_stop = v.base_stop;
    ends = v.ends;
    small = v.small;
    nothing = v.nothing;
  }

  pub open_object-Reopened :
      (h : RetryReader) (s : S)
      → IsReader size begin fin h
      → begin + h.offset ≤ size
      → Reopened h (open_object o h s).0 (open_object o h s).1
  unfolding open_object opening
  open_object-Reopened h s v fits = elim (Bool-cases (ltb h.max_tries (h.tries + 1))) [
    | inl e ↦ rw e (record {
      reader = with_reader (some too_many_opens) h.opened (h.tries + 1) v;
      offset = refl;
      max_tries = refl;
      live = λ n. cc;
      tried = λ n. cc;
      enough = λ n. cc;
    })
    | inr e ↦
        let c : RetryReader = record h { tries = h.tries + 1 } in
        let vc : IsReader size begin fin c = with_reader h.err h.opened (h.tries + 1) v in
        elim (Option-cases (o.open_span s (span_for_open c)).1) [
          | inl n ↦
              rw (e, n)
                (record {
                  reader = with_reader none true (h.tries + 1) v;
                  offset = refl;
                  max_tries = refl;
                  live = λ _. record {
                    stands =
                        object.opens s (span_for_open c) n
                        ∙ span_for_open_start size begin fin c vc (omega arith);
                    until =
                        object.stops s (span_for_open c) n
                        ∙ ap (min size) (span_for_open_stop size begin fin c vc);
                  };
                  tried = λ _. refl;
                  enough = λ _. ground arith;
                })
          | inr (x, n) ↦
              rw (e, n)
                (record {
                  reader = with_reader (some x) h.opened (h.tries + 1) v;
                  offset = refl;
                  max_tries = refl;
                  live = λ m. cc;
                  tried = λ m. cc;
                  enough = λ m. cc;
                })
        ]
  ]

  pub reopen-Reopened :
      (h : RetryReader) (s : S)
      → IsReader size begin fin h
      → begin + h.offset ≤ size
      → Reopened h (reopen o h s).0 (reopen o h s).1
  unfolding reopen
  reopen-Reopened h s v fits = elim (Bool-cases h.opened) [
    | inl e ↦
        let r =
          open_object-Reopened (record h { opened = false }) (o.close s)
            (with_reader h.err false h.tries v) fits in
        rw e (record {
          reader = r.reader;
          offset = r.offset;
          max_tries = r.max_tries;
          live = r.live;
          tried = r.tried;
          enough = r.enough;
        })
    | inr e ↦ simp e (open_object-Reopened h s v fits)
  ]
