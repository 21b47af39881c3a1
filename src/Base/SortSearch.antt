-- ===== src/Base/SortSearch.antt =====
-- `sort.Search` of Go's standard library, which ranges/ranges.go calls: the binary search for the
-- smallest index at which a test that turns from false to true is true.
use Prim.Native.Nat.{ℕ, zero, suc, ◌+◌, ◌-◌, ◌/◌, ◌≤◌, ◌<◌}
use mathlib.Core.Path.{◌≡◌}
use mathlib.Core.Logic.{inl, inr}
use mathlib.Core.Bool.{Bool, true, false}
use native.Mathlib.Omega.{arith}
use varc.Base.Tests.{ltb, ltb→lt, Bool-cases}

-- The loop over `i` and `j`; the first argument bounds the rounds.
sort_loop : ℕ → (ℕ → Bool) → ℕ → ℕ → ℕ
sort_loop zero p i j = i
sort_loop (suc fuel) p i j = elim (ltb i j) [
  | true ↦ elim (p ((i + j) / 2)) [
    | true ↦ sort_loop fuel p i ((i + j) / 2)
    | false ↦ sort_loop fuel p ((i + j) / 2 + 1) j
  ]
  | false ↦ i
]

unfoldable pub sort_search : ℕ → (ℕ → Bool) → ℕ
unfolding sort_loop
sort_search n p = sort_loop n p 0 n

-- `k` parts the indices below `n` into those where `p` is false and those where it is true.
pub record Parts (p : ℕ → Bool) (n k : ℕ) : Type 0 where
  pub inside : k ≤ n
  pub below : (x : ℕ) → x < k → p x ≡ false
  pub above : k < n → p k ≡ true

module _ (p : ℕ → Bool) (n : ℕ) (mono : (x y : ℕ) → x ≤ y → y < n → p x ≡ true → p y ≡ true) where
  below_false : (h x : ℕ) → h < n → p h ≡ false → x ≤ h → p x ≡ false
  below_false h x hn e le = ground (arith, mono x h le hn)

  sort_loop-Parts :
      (fuel i j : ℕ)
      → j - i ≤ fuel
      → i ≤ j
      → j ≤ n
      → ((x : ℕ) → x < i → p x ≡ false)
      → (j < n → p j ≡ true)
      → Parts p n (sort_loop fuel p i j)
  unfolding sort_loop
  sort_loop-Parts zero i j f le jn lo hi =
      let e : i ≡ j = omega arith in record { inside = omega arith; below = lo; above = rw e hi }
  sort_loop-Parts (suc fuel) i j f le jn lo hi = elim (Bool-cases (ltb i j)) [
    | inl more ↦
        let lt : i < j = ltb→lt i j more in
        let h : ℕ = (i + j) / 2 in
        elim (Bool-cases (p h)) [
          | inl e ↦
              rw (more, e, sort_loop)
                (sort_loop-Parts fuel i h (omega arith) (omega arith) (omega arith) lo (λ _. e))
          | inr e ↦
              rw (more, e, sort_loop)
                (sort_loop-Parts fuel (h + 1) j (omega arith) (omega arith) jn
                  (λ x xh. below_false h x (omega arith) e (omega arith)) hi)
        ]
    | inr done ↦
        let e : i ≡ j = ground arith in
        rw (done, sort_loop) (record { inside = omega arith; below = lo; above = rw e hi })
  ]

  -- On a test that stays true once it is true, the search finds where it turns.
  pub sort_search-Parts : Parts p n (sort_search n p)
  unfolding sort_search
  sort_search-Parts =
      sort_loop-Parts n 0 n (omega arith) (omega arith) (omega arith) (λ x h. absurd (omega arith))
        (λ h. absurd (omega arith))
