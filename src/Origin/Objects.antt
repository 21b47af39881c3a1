-- ===== src/Origin/Objects.antt =====
-- The adapter of the cache keeps what the retrying reader asks of an object (cache/source_object.go).
use varc.Base.{
  ℕ, ◌+◌, ◌<◌, ◌≤◌, ◌≡◌, ◌∙◌, refl, inl, inr, arith, false, true, Option, none, some, length,
  get_or, min, add64, lt64, le64, int64_half, int64_mod, Bool-cases,
}
use varc.ObjectIo.{Span, ReadError, eof}
use varc.ObjectIo.Spans.{span_start, span_stop, IsObject}
use varc.Origin.{requested, clamp, span_request, Body, opened_range, source_object}

-- What an origin promises of `OpenRange` and of the bodies it returns, for an object with the bytes `origin`: a
-- body has the bytes of the range that was asked for, as `io.Reader` gives them, with EOF at the range's end.
pub record IsBody {ℓ} {S : Type ℓ} (o : Body S) (origin : ℕ → ℕ) (size : ℕ) (pos stop : S → ℕ)
    : Type ℓ where
  pub opens :
      (s : S) (begin end : ℕ)
      → (o.open_range s (begin, end)).1 ≡ none
      → pos (o.open_range s (begin, end)).0 ≡ begin
  pub stops :
      (s : S) (begin end : ℕ)
      → (o.open_range s (begin, end)).1 ≡ none
      → stop (o.open_range s (begin, end)).0 ≡ end
  pub sound :
      (s : S) (n i : ℕ)
      → i < length (o.read s n).1.0
      → get_or (o.read s n).1.0 i 0 ≡ origin (pos s + i)
  pub bound : (s : S) (n : ℕ) → length (o.read s n).1.0 ≤ n
  pub moves : (s : S) (n : ℕ) → pos (o.read s n).0 ≡ pos s + length (o.read s n).1.0
  pub keeps : (s : S) (n : ℕ) → stop (o.read s n).0 ≡ stop s
  pub within : (s : S) (n : ℕ) → pos s ≤ size → pos s + length (o.read s n).1.0 ≤ size
  pub ends : (s : S) (n : ℕ) → (o.read s n).1.1 ≡ some eof → pos (o.read s n).0 ≡ stop s

-- A stop that is not after the size, and after a begin that is not negative.
short_stop :
    (size start stop : ℕ)
    → size < int64_half
    → stop < int64_mod
    → lt64 start 0 ≡ false
    → lt64 size stop ≡ false
    → le64 stop start ≡ false
    → stop ≤ size
unfolding lt64 le64
short_stop size start stop small pattern a b c = ground arith

long_stop :
    (size stop : ℕ) → size < int64_half → stop < int64_mod → lt64 size stop ≡ true → size ≤ stop
unfolding lt64
long_stop size stop small pattern e = ground arith

-- The range that is left of a request, if any.
Cut : ℕ → ℕ → ℕ → Option (ℕ × ℕ) → Type 0
Cut size start stop none = Unit {0}
Cut size start stop (some (begin, end)) = (begin ≡ start) × (end ≡ min size stop)

clamp-Cut :
    (size start stop : ℕ)
    → size < int64_half
    → stop < int64_mod
    → Cut size start stop (clamp size (start, stop))
unfolding clamp Cut
clamp-Cut size start stop small pattern = elim (Bool-cases (lt64 start 0)) [
  | inl e ↦ rw e tt
  | inr e ↦ rw e (elim (Bool-cases (le64 size start)) [
    | inl f ↦ rw f tt
    | inr f ↦ rw f (elim (Bool-cases (lt64 size stop)) [
      | inl long ↦
          let past = long_stop size stop small pattern long in
          rw long (elim (Bool-cases (le64 size start)) [
            | inl g ↦ rw g tt
            | inr g ↦ rw g (refl, omega arith)
          ])
      | inr short ↦ rw short (elim (Bool-cases (le64 stop start)) [
        | inl g ↦ rw g tt
        | inr g ↦
            let fits = short_stop size start stop small pattern e short g in
            rw g (refl, omega arith)
      ])
    ])
  ])
]

add64_pattern : (a b : ℕ) → add64 a b < int64_mod
unfolding add64
add64_pattern a b = omega arith

span_request-Cut :
    (size : ℕ) (span : Option Span)
    → size < int64_half
    → Cut size (span_start span) (span_stop size span) (span_request size span)
unfolding span_request requested
span_request-Cut size none small = clamp-Cut size 0 size small (omega arith)
span_request-Cut size (some sp) small = elim (Bool-cases (lt64 sp.stop 0)) [
  | inl e ↦ rw e (clamp-Cut size sp.start size small (omega arith))
  | inr e ↦ rw e (clamp-Cut size sp.start (add64 sp.stop 1) small (add64_pattern sp.stop 1))
]

module _ {ℓ} {S : Type ℓ} (o : Body S) (refusal : ReadError) (origin : ℕ → ℕ) (size : ℕ)
    (pos stop : S → ℕ) (body : IsBody o origin size pos stop) where
  opened_range-stands :
      (s : S) (start fin : ℕ) (r : Option (ℕ × ℕ))
      → Cut size start fin r
      → (opened_range o refusal s r).1 ≡ none
      → (pos (opened_range o refusal s r).0 ≡ start)
        × (stop (opened_range o refusal s r).0 ≡ min size fin)
  unfolding opened_range Cut
  opened_range-stands s start fin none c e = cc
  opened_range-stands s start fin (some (begin, end)) (a, b) e =
      (body.opens s begin end e ∙ a, body.stops s begin end e ∙ b)

  -- For an origin whose `OpenRange` and bodies behave as documented and an object whose size is an int64, the
  -- cache's adapter is an object as the retrying reader needs it: a stream that is opened for any span, also one that is
  -- longer than the object or that overflows, stands at the span's begin and ends at its end or the object's, whichever is
  -- before, and gives the object's bytes.
  pub source_object-IsObject :
      size < int64_half → IsObject (source_object o refusal size) origin size pos stop
  unfolding source_object
  source_object-IsObject small = record {
    opens = λ s sp e.
        (opened_range-stands s (span_start sp) (span_stop size sp) (span_request size sp)
          (span_request-Cut size sp small) e).0;
    stops = λ s sp e.
        (opened_range-stands s (span_start sp) (span_stop size sp) (span_request size sp)
          (span_request-Cut size sp small) e).1;
    sound = body.sound;
    bound = body.bound;
    moves = body.moves;
    keeps = body.keeps;
    within = body.within;
    ends = body.ends;
  }
