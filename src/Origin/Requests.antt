-- ===== src/Origin/Requests.antt =====
-- Which bytes are asked for (cache/source_object.go, source/http/source.go).
use varc.Base.{
  ℕ, ◌+◌, ◌-◌, ◌<◌, ◌≤◌, ◌≡◌, sym, ◌∙◌, ◌%◌, refl, inl, inr, arith, Bool, true, false, ◌&&◌, ◌||◌,
  Option, none, some, ltb, leb, sub64, lt64, le64, int64_half, int64_mod, Bool-cases,
}
use varc.Base.Int64.{add64_small}
use varc.ObjectIo.{Span}
use varc.Origin.{requested, clamp, span_request, bytes, range_request}

-- Whether a span has byte `x`; a negative end is no end.
abbrev pub in_span : Option Span → ℕ → Bool
in_span none x = true
in_span (some sp) x = leb sp.start x && (lt64 sp.stop 0 || leb x sp.stop)

-- A span with a begin that is not negative and an end that is not the last int64.
abbrev pub IsSpan : Option Span → Type 0
IsSpan none = Unit {0}
IsSpan (some sp) =
    (sp.start < int64_half)
    × (sp.stop < int64_mod)
    × ((lt64 sp.stop 0 ≡ false) → sp.stop + 1 < int64_half)

-- The request for the bytes of a span of an object: none where the object has no byte of the span.
abbrev pub Requests : ℕ → (ℕ → Bool) → Option (ℕ × ℕ) → Type 0
Requests size has none = (x : ℕ) → x < size → has x ≡ false
Requests size has (some (start, stop)) =
    ((x : ℕ) → (leb start x && ltb x stop) ≡ (has x && ltb x size))
    × (range_request size (start, stop) ≡ bytes start (stop - 1))

accepted :
    (size start stop : ℕ)
    → size < int64_half
    → start < stop
    → stop ≤ size
    → range_request size (start, stop) ≡ bytes start (stop - 1)
unfolding range_request lt64 le64 sub64
accepted size start stop a lt le =
    let last : (stop + int64_mod - 1) % int64_mod ≡ stop - 1 = omega arith in ground (arith, last)

nothing_left :
    (size start stop : ℕ)
    → size < int64_half
    → start < int64_half
    → (lt64 start 0 || le64 size start) ≡ true
    → (x : ℕ) → x < size
    → (leb start x && ltb x stop) ≡ false
unfolding lt64 le64
nothing_left size start stop a b e x lt = ground arith

begins_inside :
    (size start : ℕ)
    → size < int64_half
    → start < int64_half
    → (lt64 start 0 || le64 size start) ≡ false
    → start < size
unfolding lt64 le64
begins_inside size start a b e = ground arith

le64→le : (a b : ℕ) → a < int64_half → b < int64_half → le64 a b ≡ true → a ≤ b
unfolding le64
le64→le a b sa sb e = ground arith

le64→gt : (a b : ℕ) → a < int64_half → b < int64_half → le64 a b ≡ false → b < a
unfolding le64
le64→gt a b sa sb e = ground arith

lt64→le : (a b : ℕ) → a < int64_half → b < int64_half → lt64 a b ≡ false → b ≤ a
unfolding lt64
lt64→le a b sa sb e = ground arith

lt64→lt : (a b : ℕ) → a < int64_half → b < int64_half → lt64 a b ≡ true → a < b
unfolding lt64
lt64→lt a b sa sb e = ground arith

clamp-Requests :
    (size start stop : ℕ)
    → size < int64_half
    → start < int64_half
    → stop < int64_half
    → Requests size (λ x. leb start x && ltb x stop) (clamp size (start, stop))
unfolding clamp
clamp-Requests size start stop a b c = elim (Bool-cases (lt64 start 0 || le64 size start)) [
  | inl e ↦ rw e (nothing_left size start stop a b e)
  | inr e ↦
      let inside : start < size = begins_inside size start a b e in
      rw e (elim (Bool-cases (lt64 size stop)) [
        | inl long ↦
            let past : size < stop = lt64→lt size stop a c long in
            rw long (elim (Bool-cases (le64 size start)) [
              | inl f ↦ absurd (omega (arith, le64→le size start a b f))
              | inr f ↦ rw f (λ x. ground arith, accepted size start size a inside (omega arith))
            ])
        | inr short ↦
            let fits : stop ≤ size = lt64→le size stop a c short in
            rw short (elim (Bool-cases (le64 stop start)) [
              | inl f ↦
                  let empty : stop ≤ start = le64→le stop start c b f in rw f (λ x lt. ground arith)
              | inr f ↦
                  let some_left : start < stop = le64→gt stop start c b f in
                  rw f (λ x. ground arith, accepted size start stop a some_left fits)
            ])
      ])
]

Requests-same :
    (size : ℕ) (has has' : ℕ → Bool) (r : Option (ℕ × ℕ))
    → ((x : ℕ) → x < size → has x ≡ has' x)
    → Requests size has r
    → Requests size has' r
Requests-same size has has' none same r = λ x lt. sym (same x lt) ∙ r x lt
Requests-same size has has' (some (start, stop)) same (r, ok) = (
  λ x. r x ∙ elim (Bool-cases (ltb x size)) [
    | inl e ↦ let s : has x ≡ has' x = same x (ground arith) in rw s refl
    | inr e ↦ rw e (ground arith)
  ],
  ok,
)

-- `sourceObject.Open` asks `OpenRange` for exactly the bytes of the span that the object has, and
-- `OpenRange` does not refuse such a range and sends it as first and last byte; the range is not
-- satisfiable only if the object has no byte of the span. The conditions are that the begin of the
-- span is not negative, and that its end is not the last int64.
pub span_request-Requests :
    (size : ℕ) (span : Option Span)
    → size < int64_half
    → IsSpan span
    → Requests size (in_span span) (span_request size span)
unfolding span_request requested
span_request-Requests size none small ok =
    Requests-same size (λ x. leb 0 x && ltb x size) (λ x. true) (clamp size (0, size))
      (λ x lt. ground arith) (clamp-Requests size 0 size small (omega arith) small)
span_request-Requests size (some sp) small ok = elim (Bool-cases (lt64 sp.stop 0)) [
  | inl e ↦ rw e (
      Requests-same size (λ x. leb sp.start x && ltb x size) _ (clamp size (sp.start, size))
        (λ x lt. ground arith) (clamp-Requests size sp.start size small ok.0 small))
  | inr e ↦
      let last : sp.stop + 1 < int64_half = ok.2 e in
      rw (e, add64_small sp.stop 1 last)
        (Requests-same size (λ x. leb sp.start x && ltb x (sp.stop + 1)) _
          (clamp size (sp.start, sp.stop + 1)) (λ x lt. ground arith)
          (clamp-Requests size sp.start (sp.stop + 1) small ok.0 last))
]
