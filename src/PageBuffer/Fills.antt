-- ===== src/PageBuffer/Fills.antt =====
-- What writing to the last page leaves (bufferpool/reader_writer.go).
use native.Mathlib.Nat.{mul-zero}
use varc.Base.{
  ℕ, zero, suc, ◌+◌, ◌-◌, ◌*◌, ◌≤◌, ◌<◌, ◌≡◌, ◌∙◌, inl, inr, refl, sym, ap, subst, arith, false,
  ◌&&◌, List, [], ◌∷◌, ◌++◌, length, take, drop, get_or, set, ltb, length-append, last-cases,
  length-take, length-drop, append_nil, append_assoc, take-append_add, take-append_le, Bool-cases,
  set-append_length, get_or-append_length,
}
use varc.PageBuffer.{Rw, write_page, last_of, overwrite, fill}
use varc.PageBuffer.Bytes.{concat, Sized, concat-append, length-concat, IsPages, contents}

Sized-append :
    (n : ℕ) (ps : List (List ℕ)) (p : List ℕ) → Sized n ps → length p ≡ n → Sized n (ps ++ p ∷ [])
Sized-append n [] p s e = (e, tt)
Sized-append n (q ∷ qs) p (d, s) e = (d, Sized-append n qs p s e)

Sized-parts :
    (n : ℕ) (ps : List (List ℕ)) (p : List ℕ) → Sized n (ps ++ p ∷ []) → Sized n ps × (length p ≡ n)
Sized-parts n [] p (e, s) = (tt, e)
Sized-parts n (q ∷ qs) p (d, s) = let (a, e) = Sized-parts n qs p s in ((d, a), e)

Sized-take : (n k : ℕ) (ps : List (List ℕ)) → Sized n ps → Sized n (take k ps)
Sized-take n zero ps s = tt
Sized-take n (suc k) [] s = tt
Sized-take n (suc k) (p ∷ ps) (e, s) = (e, Sized-take n k ps s)

Sized-get_or :
    (n i : ℕ) (ps : List (List ℕ)) (p : List ℕ)
    → Sized n ps
    → length p ≡ n
    → length (get_or ps i p) ≡ n
Sized-get_or n i [] p s e = e
Sized-get_or n zero (q ∷ qs) p (d, s) e = d
Sized-get_or n (suc i) (q ∷ qs) p (d, s) e = Sized-get_or n i qs p s e

length-last_of :
    (n : ℕ) (gives : List ℕ) (ps : List (List ℕ))
    → Sized n ps
    → length gives ≡ n
    → length (last_of gives ps) ≡ n
unfolding last_of
length-last_of n gives [] s e = e
length-last_of n gives (p ∷ ps) (d, s) e = Sized-get_or n (length ps) (p ∷ ps) p (d, s) d

length-overwrite :
    (page : List ℕ) (i : ℕ) (bytes : List ℕ)
    → i + length bytes ≤ length page
    → length (overwrite page i bytes) ≡ length page
unfolding overwrite
length-overwrite page i bytes le =
    let a = length-append (take i page) (bytes ++ drop (i + length bytes) page) in
    let b = length-append bytes (drop (i + length bytes) page) in
    omega (arith, a, b, length-take i page (omega arith), length-drop (i + length bytes) page)

-- The last page with bytes written to it, among all pages.
overwrite_last :
    (ys : List (List ℕ)) (y bytes : List ℕ) (lo size : ℕ)
    → lo + length bytes ≤ length y
    → size ≡ length (concat ys) + lo
    → take (size + length bytes) (concat (ys ++ overwrite y lo bytes ∷ []))
      ≡ take size (concat (ys ++ y ∷ [])) ++ bytes
unfolding overwrite
overwrite_last ys y bytes lo size le e =
    let short = length-take lo y (omega arith) in
    let tail = drop (lo + length bytes) y in
    let at : size + length bytes ≡ length (concat ys) + (lo + length bytes) = omega (arith, e) in
    let within : lo + length bytes ≡ length (take lo y) + (length bytes + 0) =
      omega (arith, short) in
    let new : take (size + length bytes) (concat (ys ++ overwrite y lo bytes ∷ []))
        ≡ concat ys ++ (take lo y ++ bytes) =
      ap (λ xs. take (size + length bytes) xs) (concat-append ys (overwrite y lo bytes ∷ []))
      ∙ ap (λ k. take k (concat ys ++ (overwrite y lo bytes ++ []))) at
      ∙ take-append_add (concat ys) (overwrite y lo bytes ++ []) (lo + length bytes)
      ∙ ap (λ xs. concat ys ++ xs)
          (ap (take (lo + length bytes)) (append_nil (overwrite y lo bytes))
            ∙ ap (λ k. take k (take lo y ++ (bytes ++ tail))) within
            ∙ take-append_add (take lo y) (bytes ++ tail) (length bytes + 0)
            ∙ ap (λ xs. take lo y ++ xs) (take-append_add bytes tail 0 ∙ append_nil bytes)) in
    let old : take size (concat (ys ++ y ∷ [])) ≡ concat ys ++ take lo y =
      ap (λ xs. take size xs) (concat-append ys (y ∷ []))
      ∙ ap (λ k. take k (concat ys ++ (y ++ []))) e
      ∙ take-append_add (concat ys) (y ++ []) lo
      ∙ ap (λ xs. concat ys ++ take lo xs) (append_nil y) in
    new ∙ sym (append_assoc (concat ys) (take lo y) bytes) ∙ ap (λ xs. xs ++ bytes) (sym old)

set_last :
    (ys : List (List ℕ)) (y : List ℕ) (f : List ℕ → List ℕ)
    → set
        (ys ++ y ∷ [])
        (length (ys ++ y ∷ []) - 1)
        (f (get_or (ys ++ y ∷ []) (length (ys ++ y ∷ []) - 1) []))
      ≡ ys ++ f y ∷ []
set_last ys y f =
    let i : length (ys ++ y ∷ []) - 1 ≡ length ys = omega (arith, length-append ys (y ∷ [])) in
    rw i (rw (get_or-append_length ys y [] []) (set-append_length ys y [] (f y)))

-- Bytes that fit in the last page are appended to the data.
abbrev pub Appends : Rw → List ℕ → Rw → Type 0
Appends b bytes b' =
    IsPages b'
    × (contents b' ≡ contents b ++ bytes)
    × (b'.out ≡ b.out)
    × (b'.buffer_size ≡ b.buffer_size)
    × (b'.closed ≡ b.closed)

-- Where there is a page, the sizes add up.
sum :
    (b : Rw)
    → IsPages b
    → 0 < length b.pages
    → b.size + b.buffer_size ≡ length (concat b.pages) + b.last_offset
sum b v some_page = elim v.fits [ inl (e, z, l) ↦ absurd (omega (arith, ap length e)) | inr e ↦ e ]

pub fill-Appends :
    (b : Rw) (bytes : List ℕ)
    → IsPages b
    → 0 < length b.pages
    → b.last_offset + length bytes ≤ b.buffer_size
    → Appends b bytes (fill b bytes)
unfolding fill
fill-Appends b bytes v some_page le = elim (last-cases b.pages) [
  | inl e ↦ absurd (omega (arith, ap length e))
  | inr (ys, y, e) ↦
      let (full, here) = Sized-parts b.buffer_size ys y (subst (Sized b.buffer_size) e v.sized) in
      let done = overwrite y b.last_offset bytes in
      let paged : (fill b bytes).pages ≡ ys ++ done ∷ [] =
        subst
          (λ ps.
            set ps (length ps - 1) (overwrite (get_or ps (length ps - 1) []) b.last_offset bytes)
            ≡ ys ++ done ∷ [])
          (sym e) (set_last ys y (λ p. overwrite p b.last_offset bytes)) in
      let sized' : Sized b.buffer_size (ys ++ done ∷ []) =
        Sized-append b.buffer_size ys done full
          (length-overwrite y b.last_offset bytes (omega (arith, here)) ∙ here) in
      let same : length b.pages ≡ length (ys ++ done ∷ []) =
        ap length e ∙ omega (arith, length-append ys (y ∷ []), length-append ys (done ∷ [])) in
      let total : length (concat b.pages) ≡ length (concat (ys ++ done ∷ [])) =
        length-concat b.buffer_size b.pages v.sized
        ∙ ap (λ k. b.buffer_size * k) same
        ∙ sym (length-concat b.buffer_size (ys ++ done ∷ []) sized') in
      let front : length (concat b.pages) ≡ length (concat ys) + b.buffer_size =
        ap (λ ps. length (concat ps)) e
        ∙ ap length (concat-append ys (y ∷ []))
        ∙ omega (arith, length-append (concat ys) (y ++ []), length-append y [], here) in
      let size : b.size + b.buffer_size ≡ length (concat b.pages) + b.last_offset =
        sum b v some_page in
      (
        record {
          positive = v.positive;
          sized = subst (Sized b.buffer_size) (sym paged) sized';
          spare = v.spare;
          fits = inr (omega (arith, size, total, ap (λ ps. length (concat ps)) paged));
          last_fits = le;
          inside = omega (arith, v.inside);
        },
        ap (λ ps. take (b.size + length bytes) (concat ps)) paged
            ∙ overwrite_last ys y bytes b.last_offset b.size (omega (arith, here))
                (omega (arith, size, front))
            ∙ ap (λ ps. take b.size (concat ps) ++ bytes) (sym e),
        refl,
        refl,
        refl,
      )
]

-- Without room in the last page, the pages hold data only.
no_room :
    (b : Rw)
    → IsPages b
    → ltb 0 (length b.pages) && ltb b.last_offset b.buffer_size ≡ false
    → length (concat b.pages) ≡ b.size
no_room b v e = elim v.fits [
  | inl (nil, z, l) ↦ ap (λ ps. length (concat ps)) nil ∙ sym z
  | inr eq ↦ elim (Bool-cases (ltb 0 (length b.pages))) [
    | inl some_page ↦ let over : b.buffer_size ≤ b.last_offset = ground arith in omega arith
    | inr none_left ↦
        let nil : length b.pages ≡ 0 = ground arith in
        let empty : length (concat b.pages) ≡ 0 =
          length-concat b.buffer_size b.pages v.sized
          ∙ ap (λ k. b.buffer_size * k) nil
          ∙ mul-zero b.buffer_size in
        omega arith
  ]
]

-- `writePage` leaves the data, and room in the last page.
pub write_page-Appends :
    (gives : ℕ → List ℕ) (b : Rw)
    → IsPages b
    → length (gives (length b.pages)) ≡ b.buffer_size
    → Appends b [] (write_page gives b)
      × (0 < length (write_page gives b).pages)
      × ((write_page gives b).last_offset < b.buffer_size)
unfolding write_page
write_page-Appends gives b v g =
    elim (Bool-cases (ltb 0 (length b.pages) && ltb b.last_offset b.buffer_size)) [
      | inl e ↦
          rw e ((v, sym (append_nil (contents b)), refl, refl, refl), ground arith, ground arith)
      | inr e ↦
          let page = last_of (gives (length b.pages)) b.reserved in
          let sized : Sized b.buffer_size (b.pages ++ page ∷ []) =
            Sized-append b.buffer_size b.pages page v.sized
              (length-last_of b.buffer_size (gives (length b.pages)) b.reserved v.spare g) in
          let page_size =
            length-last_of b.buffer_size (gives (length b.pages)) b.reserved v.spare g in
          let more : length (concat (b.pages ++ page ∷ []))
              ≡ length (concat b.pages) + b.buffer_size =
            ap length (concat-append b.pages (page ∷ []))
            ∙ omega (
              arith,
              length-append (concat b.pages) (page ++ []),
              length-append page [],
              page_size,
            ) in
          let all : length (concat b.pages) ≡ b.size = no_room b v e in
          rw e (
            (
              record {
                positive = v.positive;
                sized = sized;
                spare = Sized-take b.buffer_size (length b.reserved - 1) b.reserved v.spare;
                fits = inr (omega (arith, more, all));
                last_fits = omega arith;
                inside = v.inside;
              },
              ap (take b.size) (concat-append b.pages (page ∷ []))
                  ∙ take-append_le b.size (concat b.pages) (page ++ []) (omega (arith, all))
                  ∙ sym (append_nil (contents b)),
              refl,
              refl,
              refl,
            ),
            omega (arith, length-append b.pages (page ∷ [])),
            v.positive,
          )
    ]
