-- ===== src/PageBuffer/Writes.antt =====
-- What Write leaves (bufferpool/reader_writer.go).
use varc.Base.{
  ℕ, zero, suc, ◌+◌, ◌-◌, ◌≤◌, ◌<◌, ◌≡◌, ◌≢◌, ◌∙◌, inl, inr, refl, sym, ap, arith, false, Option,
  none, some, List, [], ◌++◌, length, take, drop, ◌==◌, length-drop, length-take-min,
  take-length-take, append_nil, append_assoc, take_split, Bool-cases,
}
use varc.PageBuffer.{
  Rw, RwError, write_page, room, fill, Writer, observe, Put, put_on, write_loop, write,
}
use varc.PageBuffer.Bytes.{IsPages, contents, at_page}
use varc.PageBuffer.Fills.{Appends, fill-Appends, write_page-Appends}

-- Of the bytes given, the first `n` are appended to the data, and all of them unless an error is
-- returned.
pub record Writes {O : Type 0} (b : Rw) (p : List ℕ) (r : Put O) : Type 0 where
  pub appends : Appends b (take r.n p) r.rw
  pub within : r.n ≤ length p
  pub whole : r.err ≡ none → r.n ≡ length p

Appends-trans :
    (a b c : Rw) (p q s : List ℕ) → p ++ q ≡ s → Appends a p b → Appends b q c → Appends a s c
Appends-trans a b c p q s e (v, d, o, n, cl) (v', d', o', n', cl') = (
  v',
  d' ∙ ap (λ xs. xs ++ q) d ∙ append_assoc (contents a) p q ∙ ap (λ xs. contents a ++ xs) e,
  o' ∙ o,
  n' ∙ n,
  cl' ∙ cl,
)

Appends-refl : (b : Rw) (p : List ℕ) → IsPages b → p ≡ [] → Appends b p b
Appends-refl b p v e =
    (v, sym (ap (λ xs. contents b ++ xs) e ∙ append_nil (contents b)), refl, refl, refl)

nothing-Writes :
    {O : Type 0} (b : Rw) (o : O) (p : List ℕ)
    → IsPages b
    → length p ≡ 0
    → Writes b p (record { rw = b; seen = o; n = 0; err = none })
nothing-Writes b o p v e = record {
  appends = Appends-refl b [] v refl;
  within = omega arith;
  whole = λ _. sym e;
}

put_on-Writes :
    {O : Type 0} (b now : Rw) (n : ℕ) (p : List ℕ) (seen : O × Option RwError) (rest : O → Put O)
    → n ≤ length p
    → Appends b (take n p) now
    → ((o : O) → Writes now (drop n p) (rest o))
    → Writes b p (put_on now n seen rest)
unfolding put_on
put_on-Writes b now n p (o, some e) rest le a w = record {
  appends = a;
  within = le;
  whole = λ h. cc;
}
put_on-Writes b now n p (o, none) rest le a w =
    let r = w o in
    let left = length-drop n p in
    record {
      appends =
          Appends-trans b now (rest o).rw (take n p) (take (rest o).n (drop n p))
            (take (n + (rest o).n) p)
            (sym (
              take_split n (n + (rest o).n) p (omega arith)
              ∙ ap (λ k. take n p ++ take k (drop n p))
                  (let m : n + (rest o).n - n ≡ (rest o).n = omega arith in m)))
            a r.appends;
      within = omega (arith, left, r.within, le);
      whole = λ h. omega (arith, left, r.whole h, le);
    }

-- The room in the last page.
room_lem : (b : Rw) → IsPages b → 0 < length b.pages → room b ≡ b.buffer_size - b.last_offset
unfolding room
room_lem b v some_page =
    let size =
      (at_page b.buffer_size (length b.pages - 1) 0 b.pages v.sized (omega arith)
        (omega arith)).1 in
    ap (λ n. n - b.last_offset) size

module _ {O : Type 0} (watch : Option (Writer O)) (gives : ℕ → List ℕ) where
  write_loop-Writes :
      (k : ℕ) (b : Rw) (o : O) (p : List ℕ)
      → IsPages b
      → length p < k
      → ((i : ℕ) → length (gives i) ≡ b.buffer_size)
      → Writes b p (write_loop watch gives k b o p)
  unfolding write_loop
  write_loop-Writes zero b o p v lt g = absurd (omega arith)
  write_loop-Writes (suc k) b o p v lt g = elim (Bool-cases (length p == 0)) [
    | inl e ↦ rw e (nothing-Writes b o p v (ground arith))
    | inr e ↦
        let (paged, some_page, free) = write_page-Appends gives b v (g (length b.pages)) in
        let b' = write_page gives b in
        let bytes = take (room b') p in
        let size = length-take-min (room b') p in
        let space = room_lem b' paged.0 some_page in
        let fits : b'.last_offset + length bytes ≤ b'.buffer_size =
          omega (arith, size, space, free) in
        let filled = fill-Appends b' bytes paged.0 some_page fits in
        let some_left : length p ≢ 0 = ground arith in
        rw e (
          put_on-Writes b (fill b' bytes) (length bytes) p (observe watch o bytes) _
            (omega (arith, size))
            (Appends-trans b b' (fill b' bytes) [] bytes (take (length bytes) p)
              (sym (take-length-take (room b') p)) paged filled)
            (λ o'.
              write_loop-Writes k (fill b' bytes) o' (drop (length bytes) p) filled.0
                (omega (arith, length-drop (length bytes) p, size, space, free))
                (λ i. g i ∙ sym (filled.3 ∙ paged.3))))
  ]

  -- On a buffer that is not closed, Write appends to the data what it reports as written; without an
  -- error that is all it was given, whatever the pages hold and wherever they end. It moves no read
  -- position. The condition is that the pool gives buffers of its size.
  pub write-Writes :
      (b : Rw) (o : O) (p : List ℕ)
      → IsPages b
      → b.closed ≡ false
      → ((i : ℕ) → length (gives i) ≡ b.buffer_size)
      → Writes b p (write watch gives b o p)
  unfolding write
  write-Writes b o p v unclosed g =
      simp unclosed (write_loop-Writes (suc (length p)) b o p v (omega arith) g)

-- Without an observer, no write fails.
write_loop_quiet :
    {O : Type 0} (gives : ℕ → List ℕ) (k : ℕ) (b : Rw) (o : O) (p : List ℕ)
    → (write_loop none gives k b o p).err ≡ none
unfolding write_loop put_on observe
write_loop_quiet gives zero b o p = refl
write_loop_quiet gives (suc k) b o p = elim (Bool-cases (length p == 0)) [
  | inl e ↦ rw e refl
  | inr e ↦ rw e (write_loop_quiet gives k _ o _)
]

pub write_quiet :
    {O : Type 0} (gives : ℕ → List ℕ) (b : Rw) (o : O) (p : List ℕ)
    → b.closed ≡ false
    → (write none gives b o p).err ≡ none
unfolding write
write_quiet gives b o p unclosed = simp unclosed (write_loop_quiet gives (suc (length p)) b o p)
