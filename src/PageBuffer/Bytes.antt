-- ===== src/PageBuffer/Bytes.antt =====
-- The bytes that the pages hold, and what a page shows of them (bufferpool/reader_writer.go).
use native.Mathlib.Nat.{mod-lt, div-add-mod, mul-le-mul_left, mul-suc, mul-zero}
use varc.Base.{
  ℕ, zero, suc, ◌+◌, ◌-◌, ◌*◌, ◌/◌, ◌%◌, ◌≤◌, ◌<◌, ◌≡◌, ◌∙◌, ◌⊎◌, inl, inr, refl, sym, ap, subst,
  arith, List, [], ◌∷◌, ◌++◌, length, take, drop, get_or, ltb, ◌==◌, if◌then◌else◌, length-append,
  length-take, length-drop, append_nil, append_assoc, take-append_add, drop-append_add,
  drop-append_le, drop-take, take-append_le, Bool-cases,
}
use varc.PageBuffer.{Rw, read_page}

abbrev pub concat : List (List ℕ) → List ℕ
concat [] = []
concat (p ∷ ps) = p ++ concat ps

abbrev pub Sized : ℕ → List (List ℕ) → Type 0
Sized n [] = Unit {0}
Sized n (p ∷ ps) = (length p ≡ n) × Sized n ps

pub concat-append : (ps qs : List (List ℕ)) → concat (ps ++ qs) ≡ concat ps ++ concat qs
concat-append [] qs = refl
concat-append (p ∷ ps) qs =
    ap (λ xs. p ++ xs) (concat-append ps qs) ∙ sym (append_assoc p (concat ps) (concat qs))

pub length-concat : (n : ℕ) (ps : List (List ℕ)) → Sized n ps → length (concat ps) ≡ n * length ps
length-concat n [] s = sym (mul-zero n)
length-concat n (p ∷ ps) (e, s) =
    omega (arith, length-append p (concat ps), length-concat n ps s, mul-suc n (length ps), e)

-- Where a position stands, in the page of its number.
pub at_page :
    (n q r : ℕ) (ps : List (List ℕ))
    → Sized n ps
    → q < length ps
    → r ≤ n
    → (drop (n * q + r) (concat ps) ≡ drop r (get_or ps q []) ++ concat (drop (suc q) ps))
      × (length (get_or ps q []) ≡ n)
at_page n q r [] s lt le = absurd (omega arith)
at_page n zero r (p ∷ ps) (e, s) lt le =
    let z : n * 0 + r ≡ r = omega (arith, mul-zero n) in
    (rw z (drop-append_le r p (concat ps) (omega (arith, e))), e)
at_page n (suc q) r (p ∷ ps) (e, s) lt le =
    let (rest, size) = at_page n q r ps s (omega arith) le in
    let z : n * suc q + r ≡ length p + (n * q + r) = omega (arith, mul-suc n q, e) in
    (rw z (drop-append_add p (concat ps) (n * q + r) ∙ rest), size)

-- Each page and each reserved buffer has the pool's size. The last page holds `last_offset` bytes of
-- the data, those before it are full, and the read position is not past the end.
pub record IsPages (b : Rw) : Type 0 where
  pub positive : 0 < b.buffer_size
  pub sized : Sized b.buffer_size b.pages
  pub spare : Sized b.buffer_size b.reserved
  pub fits :
      ((b.pages ≡ []) × (b.size ≡ 0) × (b.last_offset ≡ 0))
      ⊎ (b.size + b.buffer_size ≡ length (concat b.pages) + b.last_offset)
  pub last_fits : b.last_offset ≤ b.buffer_size
  pub inside : b.out ≤ b.size

-- What has been written.
abbrev pub contents : Rw → List ℕ
contents b = take b.size (concat b.pages)

-- A page shows some of the bytes from the read position on.
abbrev pub Shows : Rw → List ℕ → Type 0
Shows b page = (0 < length page) × ((later : List ℕ) × (drop b.out (contents b) ≡ page ++ later))

-- The page of a position that is not past the end is there.
page_below :
    (n q r l size lo out : ℕ)
    → n * q + r ≡ out
    → size + n ≡ n * l + lo
    → out < size
    → lo ≤ n
    → q < l
page_below n q r l size lo out at fits lt le = elim (Bool-cases (ltb q l)) [
  | inl h ↦ ground arith
  | inr h ↦ let le' : l ≤ q = ground arith in absurd (omega (arith, mul-le-mul_left n le'))
]

page-Shows :
    (b : Rw) (q r : ℕ)
    → IsPages b
    → b.out < b.size
    → b.buffer_size * q + r ≡ b.out
    → r < b.buffer_size
    → Shows b (
        drop r (
          if suc q == length b.pages
          then take b.last_offset (get_or b.pages q [])
          else get_or b.pages q []))
page-Shows b q r v lt at small =
    let fits : b.size + b.buffer_size ≡ b.buffer_size * length b.pages + b.last_offset =
      elim v.fits [
        | inl (e, z, lz) ↦ absurd (omega arith)
        | inr e ↦ e ∙ rw (length-concat b.buffer_size b.pages v.sized) refl
      ] in
    let below : q < length b.pages =
      page_below b.buffer_size q r (length b.pages) (b.size) b.last_offset b.out at fits lt
        v.last_fits in
    let (rest, size) = at_page b.buffer_size q r b.pages v.sized below (omega arith) in
    let page = get_or b.pages q [] in
    let mine : drop b.out (contents b)
        ≡ take (b.size - b.out) (drop r page ++ concat (drop (suc q) b.pages)) =
      drop-take b.out b.size (concat b.pages)
      ∙ ap (take (b.size - b.out)) (
          subst (λ i. drop i (concat b.pages) ≡ drop r page ++ concat (drop (suc q) b.pages)) at
            rest) in
    elim (Bool-cases (suc q == length b.pages)) [
      | inl e ↦
          let count : b.buffer_size * length b.pages ≡ b.buffer_size * q + b.buffer_size =
            ap (λ l. b.buffer_size * l)
              (let is_last : length b.pages ≡ suc q = ground arith in is_last)
            ∙ mul-suc b.buffer_size q in
          let here : b.size - b.out ≡ b.last_offset - r = omega arith in
          let short : length (take b.last_offset page) ≡ b.last_offset =
            length-take b.last_offset page (omega (arith, size)) in
          let full = length-drop r page in
          rw e (
            omega (arith, length-drop r (take b.last_offset page), short),
            (
              [],
              mine
                  ∙ ap (λ k. take k (drop r page ++ concat (drop (suc q) b.pages))) here
                  ∙ take-append_le (b.last_offset - r) (drop r page) (concat (drop (suc q) b.pages))
                      (omega (arith, full, size))
                  ∙ sym (drop-take r b.last_offset page)
                  ∙ sym (append_nil (drop r (take b.last_offset page))),
            ),
          )
      | inr e ↦
          let full = length-drop r page in
          let two : suc (suc q) ≤ length b.pages = ground arith in
          let count : b.buffer_size * q + b.buffer_size + b.buffer_size
              ≤ b.buffer_size * length b.pages =
            omega (
              arith,
              mul-le-mul_left b.buffer_size two,
              mul-suc b.buffer_size (suc q),
              mul-suc b.buffer_size q,
            ) in
          let m = (b.size - b.out) - length (drop r page) in
          let here : b.size - b.out ≡ length (drop r page) + m = omega (arith, full, size) in
          rw e (
            omega (arith, full, size),
            (
              take m (concat (drop (suc q) b.pages)),
              mine
                  ∙ ap (λ k. take k (drop r page ++ concat (drop (suc q) b.pages))) here
                  ∙ take-append_add (drop r page) (concat (drop (suc q) b.pages)) m,
            ),
          )
    ]

pub read_page-Shows : (b : Rw) → IsPages b → b.out < b.size → Shows b (read_page b b.out)
unfolding read_page
read_page-Shows b v lt =
    page-Shows b (b.out / b.buffer_size) (b.out % b.buffer_size) v lt
      (div-add-mod b.out b.buffer_size) (mod-lt b.out v.positive)
