-- ===== src/Ranges/FindAll.antt =====
-- `Ranges.FindAll` and `Ranges.Intersection`: the loops over `Find` (ranges/ranges.go).
use varc.Base.{
  ℕ, zero, suc, ◌+◌, ◌-◌, ◌<◌, ◌≤◌, ◌≡◌, ◌∙◌, refl, inl, inr, Bool, true, false, not, ◌&&◌, ◌||◌,
  List, [], ◌∷◌, arith, ltb, leb, if◌then◌else◌, Bool-cases, int64_half, length, ◌==◌,
}
use varc.Ranges.{
  Range, Found, FoundRange, is_empty, find, find_all, find_all_loop, insert, intersection,
  intersection_loop,
}
use varc.Ranges.Valid.{IsValid, Fits, stop, inside, covers, is_empty_small}
use varc.Ranges.FindAhead.{Finds}
use varc.Ranges.Insert.{Adds, insert-Adds}
use varc.Ranges.Find.{find-Finds}

-- The found ranges lie end to end over the `n` bytes from `p` on. Each is non-empty, all its bytes
-- are present or none is, as its flag says, and the byte behind it is of the other kind.
abbrev pub Tiles : List Range → ℕ → ℕ → List FoundRange → Type 0
Tiles rs p n [] = n ≡ 0
Tiles rs p n (f ∷ fs) =
    (f.r.pos ≡ p)
    × (0 < f.r.size)
    × (f.r.size ≤ n)
    × ((b : ℕ) → p ≤ b → b < p + f.r.size → covers rs b ≡ f.present)
    × (f.r.size < n → covers rs (p + f.r.size) ≡ not f.present)
    × Tiles rs (p + f.r.size) (n - f.r.size) fs

-- A range of which only the size matters once it is empty.
abbrev At : Range → ℕ → Type 0
At r p = (p + r.size < int64_half) × (0 < r.size → r.pos ≡ p)

At-empty : (r : Range) (p : ℕ) → At r p → is_empty r ≡ leb r.size 0
At-empty r p a = is_empty_small r (omega (arith, a.0))

find_placed :
    (rs : List Range) (r : Range) (p : ℕ)
    → IsValid rs
    → At r p
    → 0 < r.size
    → Finds rs r (find rs r)
find_placed rs r p v a pos = find-Finds rs r v (omega (arith, a.0, a.1 pos)) pos

At-next :
    (rs : List Range) (r : Range) (f : Found) (p : ℕ)
    → At r p
    → 0 < r.size
    → Finds rs r f
    → At f.next (p + f.curr.size)
At-next rs r f p a pos F =
    (omega (arith, a.0, F.sizes), λ h. omega (arith, F.follows h, F.starts, a.1 pos))

find_all_loop-Tiles :
    (rounds : ℕ) (rs : List Range) (r : Range) (p : ℕ)
    → IsValid rs
    → r.size ≤ rounds
    → At r p
    → Tiles rs p r.size (find_all_loop rounds rs r)
unfolding find_all_loop
find_all_loop-Tiles zero rs r p v le a = omega arith
find_all_loop-Tiles (suc rounds) rs r p v le a = elim (Bool-cases (is_empty r)) [
  | inl e ↦
      let none_left : leb r.size 0 ≡ true = rw (← At-empty r p a) e in
      rw (e, find_all_loop) (ground arith)
  | inr e ↦
      let some_left : leb r.size 0 ≡ false = rw (← At-empty r p a) e in
      let pos : 0 < r.size = ground arith in
      let F : Finds rs r (find rs r) = find_placed rs r p v a pos in
      let q : r.pos ≡ p = a.1 pos in
      let rest =
        find_all_loop-Tiles rounds rs (find rs r).next (p + (find rs r).curr.size) v
          (omega (arith, F.sizes, F.nonempty)) (At-next rs r (find rs r) p a pos F) in
      let left : (find rs r).next.size ≡ r.size - (find rs r).curr.size = omega (arith, F.sizes) in
      let here : stop (find rs r).curr ≡ p + (find rs r).curr.size = omega (arith, F.starts) in
      rw (e, find_all_loop)
        (
          F.starts ∙ q,
          F.nonempty,
          omega (arith, F.sizes),
          λ b le lt. F.flags b (omega arith) (omega arith),
          λ lt. rw (← here) (F.turns (omega arith)),
          rw (← left) rest,
        )
]

-- On a well-formed set, `FindAll` of a range whose end does not overflow cuts exactly that range
-- into non-empty pieces, end to end, that are in turn wholly present and wholly absent, each with
-- the flag that says which. So the loop has enough rounds.
pub find_all-Tiles :
    (rs : List Range) (r : Range) → IsValid rs → Fits r → Tiles rs r.pos r.size (find_all rs r)
unfolding find_all
find_all-Tiles rs r v f =
    find_all_loop-Tiles r.size rs r r.pos v (omega arith) (omega arith, λ h. refl)

-- The bytes that `Intersection` has when `n` bytes from `p` on are left.
abbrev shared : List Range → List Range → ℕ → ℕ → ℕ → Bool
shared rs new_rs p n b = covers new_rs b || (covers rs b && (leb p b && ltb b (p + n)))

abbrev Shares : List Range → List Range → ℕ → ℕ → List Range → Type 0
Shares rs new_rs p n out = IsValid out × ((b : ℕ) → covers out b ≡ shared rs new_rs p n b)

-- One round adds the piece that was found, if it is present.
step-Shares :
    (rs new_rs : List Range) (r : Range) (f : Found) (p : ℕ)
    → IsValid new_rs
    → At r p
    → 0 < r.size
    → Finds rs r f
    → Shares rs new_rs p f.curr.size (if f.present then insert new_rs f.curr else new_rs)
step-Shares rs new_rs r f p vn a pos F =
    let q : r.pos ≡ p = a.1 pos in
    let fits : Fits f.curr = omega (arith, F.starts, F.sizes, a.0) in
    elim (Bool-cases f.present) [
      | inl e ↦
          let added : Adds new_rs f.curr (insert new_rs f.curr) =
            insert-Adds new_rs f.curr vn fits in
          rw e (added.0, λ b. ground (arith, added.1 b, F.flags b, F.starts))
      | inr e ↦ rw e (vn, λ b. ground (arith, F.flags b, F.starts))
    ]

windows :
    (n c : Bool) (p k m t b : ℕ)
    → k + m ≡ t
    → ((n || (c && (leb p b && ltb b (p + k)))) || (c && (leb (p + k) b && ltb b (p + k + m))))
      ≡ (n || (c && (leb p b && ltb b (p + t))))
windows n c p k m t b e = ground arith

intersection_loop-Shares :
    (rounds : ℕ) (rs : List Range) (r : Range) (new_rs : List Range) (p : ℕ)
    → IsValid rs
    → IsValid new_rs
    → r.size ≤ rounds
    → At r p
    → Shares rs new_rs p r.size (intersection_loop rounds rs r new_rs)
unfolding intersection_loop
intersection_loop-Shares zero rs r new_rs p v vn le a = (vn, λ b. ground arith)
intersection_loop-Shares (suc rounds) rs r new_rs p v vn le a = elim (Bool-cases (is_empty r)) [
  | inl e ↦
      let none_left : leb r.size 0 ≡ true = rw (← At-empty r p a) e in
      rw (e, intersection_loop) (vn, λ b. ground arith)
  | inr e ↦
      let some_left : leb r.size 0 ≡ false = rw (← At-empty r p a) e in
      let pos : 0 < r.size = ground arith in
      let F : Finds rs r (find rs r) = find_placed rs r p v a pos in
      let step = step-Shares rs new_rs r (find rs r) p vn a pos F in
      let rest =
        intersection_loop-Shares rounds rs (find rs r).next
          (if (find rs r).present then insert new_rs (find rs r).curr else new_rs)
          (p + (find rs r).curr.size) v step.0 (omega (arith, F.sizes, F.nonempty))
          (At-next rs r (find rs r) p a pos F) in
      rw (e, intersection_loop)
        (
          rest.0,
          λ b.
              rest.1 b
              ∙ rw (step.1 b) (windows (covers new_rs b) (covers rs b) p _ _ r.size b F.sizes),
        )
]

-- On a well-formed set, `Intersection` with a range whose end does not overflow is a well-formed set
-- that covers exactly the bytes of the set that lie in the range.
pub intersection_lem :
    (rs : List Range) (r : Range)
    → IsValid rs
    → Fits r
    → IsValid (intersection rs r)
      × ((b : ℕ) → covers (intersection rs r) b ≡ (covers rs b && inside r b))
unfolding intersection
intersection_lem [] r v f = (tt, λ b. refl)
intersection_lem (x ∷ xs) r v f =
    let done =
      intersection_loop-Shares r.size (x ∷ xs) r [] r.pos v tt (omega arith)
        (omega arith, λ h. refl) in
    let full : (length (x ∷ xs) == 0) ≡ false = ground arith in rw full done
