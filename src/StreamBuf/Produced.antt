-- ===== src/StreamBuf/Produced.antt =====
-- `ReadFill` of a source that keeps its promises ends, with the next bytes of the source
-- (internal/engine/readutil/fill.go).
use varc.Base.{
  ℕ, zero, suc, ◌+◌, ◌-◌, ◌<◌, ◌≤◌, ◌≡◌, ◌∙◌, ap, sym, inl, inr, refl, arith, Option, none, some,
  List, [], ◌∷◌, ◌++◌, length, length-append, ◌==◌, Bool-cases,
}
use varc.ObjectIo.{ReadError}
use varc.StreamBuf.{Input, fill_front, fill_by, read_fill}

-- The bytes of the source from a place on.
abbrev pub segment : (ℕ → ℕ) → ℕ → ℕ → List ℕ
segment origin p zero = []
segment origin p (suc n) = origin p ∷ segment origin (suc p) n

pub length-segment : (origin : ℕ → ℕ) (p n : ℕ) → length (segment origin p n) ≡ n
length-segment origin p zero = refl
length-segment origin p (suc n) = ap suc (length-segment origin (suc p) n)

pub segment-append :
    (origin : ℕ → ℕ) (p m n : ℕ)
    → segment origin p m ++ segment origin (p + m) n ≡ segment origin p (m + n)
segment-append origin p zero n =
    ap (λ q. segment origin q n) (omega arith) ∙ ap (segment origin p) (omega arith)
segment-append origin p (suc m) n =
    let e : suc m + n ≡ suc (m + n) = omega arith in
    let f : p + suc m ≡ suc p + m = omega arith in
    rw (e, f) (ap (◌∷◌ (origin p)) (segment-append origin (suc p) m n))

pub append-segment :
    (origin : ℕ → ℕ) (p q : ℕ) (xs ys : List ℕ)
    → xs ≡ segment origin p (length xs)
    → q ≡ p + length xs
    → ys ≡ segment origin q (length ys)
    → xs ++ ys ≡ segment origin p (length (xs ++ ys))
append-segment origin p q xs ys e at f =
    ap (λ x. x ++ ys) e
    ∙ ap (λ y. segment origin p (length xs) ++ y) (f ∙ ap (λ k. segment origin k (length ys)) at)
    ∙ segment-append origin p (length xs) (length ys)
    ∙ ap (segment origin p) (sym (length-append xs ys))

module _ {S : Type 0} (origin : ℕ → ℕ) (pos : S → ℕ) where
  -- Bytes that were read from the stream of `s`.
  pub record Takes (s : S) (a : S × List ℕ × Option ReadError) : Type 0 where
    pub moves : pos a.0 ≡ pos s + length a.1
    pub bytes : a.1 ≡ segment origin (pos s) (length a.1)

  pub record IsInput (o : Input S) : Type 0 where
    pub takes : (s : S) (n : ℕ) → Takes s (o.read s n)
    pub few : (s : S) (n : ℕ) → length (o.read s n).1 ≤ n
    -- A read of at least a byte that returns nothing returns an error.
    pub progress : (s : S) (n : ℕ) → 0 < n → (o.read s n).2 ≡ none → 0 < length (o.read s n).1

  fill_by-Takes :
      (o : Input S) (s : S) (a : S × List ℕ × Option ReadError)
      (rest : Option (S × List ℕ × Option ReadError))
      → Takes s a
      → (a.2 ≡ none → (r : S × List ℕ × Option ReadError) × (rest ≡ some r) × Takes a.0 r)
      → (r : S × List ℕ × Option ReadError) × (fill_by o a rest ≡ some r) × Takes s r
  unfolding fill_by fill_front
  fill_by-Takes o s (s', bytes, some e) rest t more = (_, refl, t)
  fill_by-Takes o s (s', bytes, none) rest t more =
      let ((s2, b2, e2), run, u) = more refl in
      rw run (
        _,
        refl,
        record {
          moves = omega (arith, t.moves, u.moves, length-append bytes b2);
          bytes = append-segment origin (pos s) (pos s') bytes b2 t.bytes t.moves u.bytes;
        },
      )

  pub read_fill-Takes :
      (o : Input S)
      → IsInput o
      → (k : ℕ) (s : S) (n : ℕ) → n ≤ k
      → (r : S × List ℕ × Option ReadError) × (read_fill o k s n ≡ some r) × Takes s r
  unfolding read_fill
  read_fill-Takes o input zero s n le =
      let z : n ≡ 0 = omega arith in simp z (_, refl, record { moves = omega arith; bytes = refl })
  read_fill-Takes o input (suc k) s n le = elim (Bool-cases (n == 0)) [
    | inl y ↦ simp y (_, refl, record { moves = omega arith; bytes = refl })
    | inr z ↦ simp z (
        fill_by-Takes o s (o.read s n) (read_fill o k (o.read s n).0 (n - length (o.read s n).1))
          (input.takes s n)
          (λ h.
            let some_bytes = input.progress s n (ground arith) h in
            read_fill-Takes o input k (o.read s n).0 (n - length (o.read s n).1) (omega arith)))
  ]
