-- ===== src/PageBuffer/Copies/Drains.antt =====
-- `WriteTo` ends, and gives the writer what is left to read (bufferpool/reader_writer.go).
use varc.Base.{
  ℕ, zero, suc, ◌+◌, ◌-◌, ◌≤◌, ◌<◌, ◌≡◌, ◌∙◌, inl, inr, refl, sym, ap, arith, true, false, Option,
  none, some, List, ◌++◌, length, take, drop, leb, length-append, length-drop, length-take-min,
  append_nil, append_assoc, take-append_le, drop-drop, take_split, Bool-cases,
}
use varc.PageBuffer.{Rw, at_eof, read_page, Writer, Put}
use varc.PageBuffer.Bytes.{IsPages, contents, read_page-Shows, concat}
use varc.PageBuffer.Copies.{and_more, took, write_to_loop, write_to}

-- A writer as `io.Writer` documents it: it takes the first bytes of what it is given, and all of them
-- unless it returns an error. `log` are the bytes that it has taken.
pub record IsWriter {O : Type 0} (w : Writer O) (log : O → List ℕ) : Type 0 where
  pub within : (o : O) (p : List ℕ) → (w o p).1 ≤ length p
  pub whole : (o : O) (p : List ℕ) → (w o p).2 ≡ none → (w o p).1 ≡ length p
  pub takes : (o : O) (p : List ℕ) → log (w o p).0 ≡ log o ++ take (w o p).1 p

module _ {O : Type 0} (w : Writer O) (log : O → List ℕ) (ok : IsWriter w log) where
  -- The writer got the next `n` bytes, and all that are left unless it failed.
  pub record Drained (b : Rw) (o : O) (r : Put O) : Type 0 where
    pub state : r.rw ≡ record b { out = b.out + r.n }
    pub inside : b.out + r.n ≤ b.size
    pub given : log r.seen ≡ log o ++ take r.n (drop b.out (contents b))
    pub whole : r.err ≡ none → b.out + r.n ≡ b.size

  Drains : Rw → O → Option (Put O) → Type 0
  Drains b o none = ⊥
  Drains b o (some r) = Drained b o r

  ended-Drained :
      (b : Rw) (o : O)
      → IsPages b
      → b.size ≤ b.out
      → Drained b o (record { rw = b; seen = o; n = 0; err = none })
  ended-Drained b o v end = record {
    state = ap (λ n. record b { out = n }) (omega arith);
    inside = omega (arith, v.inside);
    given = sym (append_nil (log o));
    whole = λ _. omega (arith, v.inside);
  }

  module _ (b : Rw) (o : O) (page later : List ℕ) (shown : drop b.out (contents b) ≡ page ++ later)
      (left : b.out < b.size) where
    page_inside : b.out + length page ≤ b.size
    page_inside = omega (
      arith,
      ap length shown,
      length-append page later,
      length-drop b.out (contents b),
      length-take-min b.size (concat b.pages),
    )

    taken : (n : ℕ) → n ≤ length page → take n (drop b.out (contents b)) ≡ take n page
    taken n le = ap (take n) shown ∙ take-append_le n page later le

    more-Drains :
        (n : ℕ) (o' : O) (rest : Option (Put O))
        → n ≤ length page
        → log o' ≡ log o ++ take n page
        → Drains (record b { out = b.out + n }) o' rest
        → Drains b o (and_more n rest)
    unfolding and_more Drains
    more-Drains n o' none le l d = d
    more-Drains n o' (some r) le l d = record {
      state = d.state ∙ ap (λ k. record b { out = k }) (omega arith);
      inside = omega (arith, d.inside);
      given =
          d.given
          ∙ ap (λ xs. xs ++ take r.n (drop (b.out + n) (contents b)))
              (l ∙ ap (λ xs. log o ++ xs) (sym (taken n le)))
          ∙ append_assoc (log o) (take n (drop b.out (contents b)))
              (take r.n (drop (b.out + n) (contents b)))
          ∙ ap (λ xs. log o ++ xs)
              (ap (λ xs. take n (drop b.out (contents b)) ++ take r.n xs)
                  (sym (drop-drop n b.out (contents b)))
                ∙ ap
                    (λ k.
                      take n (drop b.out (contents b)) ++ take k (drop n (drop b.out (contents b))))
                    (let m : r.n ≡ n + r.n - n = omega arith in m)
                ∙ sym (take_split n (n + r.n) (drop b.out (contents b)) (omega arith)));
      whole = λ e. omega (arith, d.whole e);
    }

    took-Drains :
        (n : ℕ) (o' : O) (err : Option ℕ) (rest : Option (Put O))
        → n ≤ length page
        → log o' ≡ log o ++ take n page
        → (err ≡ none → Drains (record b { out = b.out + n }) o' rest)
        → Drains b o (took (record b { out = b.out + n }) o' n err rest)
    unfolding took Drains
    took-Drains n o' none rest le l d = more-Drains n o' rest le l (d refl)
    took-Drains n o' (some e) rest le l d = record {
      state = refl;
      inside = omega (arith, page_inside);
      given = l ∙ ap (λ xs. log o ++ xs) (sym (taken n le));
      whole = λ h. absurd (cc (h));
    }

  write_to_loop-Drains :
      (k : ℕ) (b : Rw) (o : O) → IsPages b → b.size ≤ b.out + k → Drains b o (write_to_loop w k b o)
  unfolding write_to_loop at_eof Drains
  write_to_loop-Drains zero b o v enough =
      let e : leb b.size b.out ≡ true = ground arith in rw e (ended-Drained b o v (omega arith))
  write_to_loop-Drains (suc k) b o v enough = elim (Bool-cases (leb b.size b.out)) [
    | inl e ↦ rw e (ended-Drained b o v (ground arith))
    | inr e ↦
        let page = read_page b b.out in
        let left : b.out < b.size = ground arith in
        let shows = read_page-Shows b v left in
        let answer = w o page in
        let inside = page_inside b o page shows.1.0 shows.1.1 left in
        rw e (
          took-Drains b o page shows.1.0 shows.1.1 left answer.1 answer.0 answer.2 _
            (ok.within o page) (ok.takes o page)
            (λ none_left.
              write_to_loop-Drains k _ answer.0
                (record {
                  positive = v.positive;
                  sized = v.sized;
                  spare = v.spare;
                  fits = v.fits;
                  last_fits = v.last_fits;
                  inside = omega (arith, ok.within o page, inside);
                })
                (omega (arith, ok.whole o page none_left, shows.0))))
  ]

  ended-Drains :
      (b : Rw) (o : O) (x : Option (Put O))
      → Drains b o x
      → (r : Put O) × (x ≡ some r) × Drained b o r
  unfolding Drains
  ended-Drains b o none d = elim d [ ]
  ended-Drains b o (some r) d = (r, refl, d)

  -- `WriteTo` on a buffer that is not closed ends, after at most one round for each byte that is left.
  -- It gives the writer the bytes from the read position on, in order, moves the position by as many
  -- as the writer took, and reaches the end of the data unless the writer failed. The condition is
  -- that the writer takes what it is given or returns an error.
  pub write_to-Drained :
      (b : Rw) (o : O)
      → IsPages b
      → b.closed ≡ false
      → (r : Put O) × (write_to w b o ≡ some r) × Drained b o r
  unfolding write_to
  write_to-Drained b o v unclosed =
      let (r, e, d) =
        ended-Drains b o (write_to_loop w (b.size - b.out) b o)
          (write_to_loop-Drains (b.size - b.out) b o v (omega arith)) in
      (r, simp unclosed e, d)
