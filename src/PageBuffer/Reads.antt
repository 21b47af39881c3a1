-- ===== src/PageBuffer/Reads.antt =====
-- What Read gives (bufferpool/reader_writer.go).
use varc.Base.{
  ℕ, zero, suc, ◌+◌, ◌-◌, ◌≤◌, ◌<◌, ◌≡◌, ◌≢◌, ◌∙◌, ◌⊎◌, inl, inr, refl, sym, ap, arith, false, none,
  some, List, [], ◌++◌, length, take, drop, leb, ◌==◌, length-append, length-drop, length-take-min,
  take-length-append, take_all, drop_all, drop-drop, take_split, Bool-cases,
}
use varc.PageBuffer.{
  Rw, RwError, eof, Got, at_eof, read_page, read_loop, read, write_page, room, fill, Writer,
  observe, Put, put_on, write_loop, write,
}
use varc.PageBuffer.Bytes.{IsPages, contents, at_page, Shows, read_page-Shows}

-- The bytes that `Read` of `len` bytes gives, and its error.
pub record Reads (b : Rw) (len : ℕ) (r : Got) : Type 0 where
  pub bytes : r.bytes ≡ take len (drop b.out (contents b))
  pub state : r.rw ≡ record b { out = b.out + length r.bytes }
  pub inside : b.out + length r.bytes ≤ b.size
  pub err :
      ((r.err ≡ none) × (length r.bytes ≡ len)) ⊎ ((r.err ≡ some eof) × (length r.bytes < len))

nothing-Reads :
    (b : Rw) (len : ℕ)
    → IsPages b
    → len ≡ 0
    → Reads b len (record { rw = b; bytes = []; err = none })
nothing-Reads b len v e = record {
  bytes = ap (λ n. take n (drop b.out (contents b))) (sym e);
  state = ap (λ n. record b { out = n }) (omega arith);
  inside = omega (arith, v.inside);
  err = inl (refl, sym e);
}

contents_le : (b : Rw) → length (contents b) ≤ b.size
contents_le b = omega (arith, length-take-min b.size (varc.PageBuffer.Bytes.concat b.pages))

ended-Reads :
    (b : Rw) (len : ℕ)
    → IsPages b
    → len ≢ 0
    → b.size ≤ b.out
    → Reads b len (record { rw = b; bytes = []; err = some eof })
ended-Reads b len v some_left end =
    let nil : drop b.out (contents b) ≡ [] =
      drop_all b.out (contents b) (omega (arith, contents_le b)) in
    record {
      bytes = sym (ap (take len) nil ∙ take_all len [] (omega arith));
      state = ap (λ n. record b { out = n }) (omega arith);
      inside = omega (arith, v.inside);
      err = inr (refl, omega arith);
    }

module _ (b : Rw) (len : ℕ) (v : IsPages b) (page : List ℕ) (shows : Shows b page) where
  abbrev part : List ℕ
  part = take len page

  part_inside : b.out + length part ≤ b.size
  part_inside =
      let sizes = ap length shows.1.1 ∙ length-append page shows.1.0 in
      omega (
        arith,
        sizes,
        shows.0,
        length-drop b.out (contents b),
        contents_le b,
        length-take-min len page,
      )

  -- A page's part, and then the rest.
  part-Reads :
      (r : Got)
      → len ≢ 0
      → Reads (record b { out = b.out + length part }) (len - length part) r
      → Reads b len (record r { bytes = part ++ r.bytes })
  part-Reads r some_left rest =
      let n = length part in
      let size = length-take-min len page in
      let both = length-append part r.bytes in
      let first : take n (drop b.out (contents b)) ≡ part =
        ap (take n) shows.1.1 ∙ take-length-append len page shows.1.0 in
      record {
        bytes = sym (
            take_split n len (drop b.out (contents b)) (omega (arith, size))
            ∙ ap (λ xs. xs ++ take (len - n) (drop n (drop b.out (contents b)))) first
            ∙ ap (λ xs. part ++ take (len - n) xs) (drop-drop n b.out (contents b))
            ∙ ap (λ xs. part ++ xs) (sym rest.bytes));
        state = rest.state ∙ ap (λ k. record b { out = k }) (omega (arith, both));
        inside = omega (arith, both, rest.inside);
        err = elim rest.err [
          | inl (e, l) ↦ inl (e, omega (arith, both, l, size))
          | inr (e, l) ↦ inr (e, omega (arith, both, l, size))
        ];
      }

read_loop-Reads : (k : ℕ) (b : Rw) (len : ℕ) → IsPages b → len < k → Reads b len (read_loop k b len)
unfolding read_loop at_eof
read_loop-Reads zero b len v lt = absurd (omega arith)
read_loop-Reads (suc k) b len v lt = elim (Bool-cases (len == 0)) [
  | inl e ↦ rw e (nothing-Reads b len v (ground arith))
  | inr e ↦
      let some_left : len ≢ 0 = ground arith in
      rw e (elim (Bool-cases (leb b.size b.out)) [
        | inl end ↦ rw end (ended-Reads b len v some_left (ground arith))
        | inr more ↦
            let page = read_page b b.out in
            let shows = read_page-Shows b v (ground arith) in
            let inside = part_inside b len v page shows in
            let moved : IsPages (record b { out = b.out + length (take len page) }) = record {
              positive = v.positive;
              sized = v.sized;
              spare = v.spare;
              fits = v.fits;
              last_fits = v.last_fits;
              inside = inside;
            } in
            rw more (
              part-Reads b len v page shows _ some_left (
                read_loop-Reads k _ (len - length (take len page)) moved
                  (omega (arith, shows.0, length-take-min len page))))
      ])
]

-- On a buffer that is not closed, Read gives the next bytes of what was written, as many as were asked
-- for or all that are left, moves the position by as many, and returns EOF if they are fewer.
pub read-Reads : (b : Rw) (len : ℕ) → IsPages b → b.closed ≡ false → Reads b len (read b len)
unfolding read
read-Reads b len v unclosed = simp unclosed (read_loop-Reads (suc len) b len v (omega arith))
