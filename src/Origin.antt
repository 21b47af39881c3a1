-- ===== src/Origin.antt =====
-- cache/source_object.go and source/http/source.go: from a span of an object to the range request
-- for it. Sizes and offsets are int64.
pub mod Requests
pub mod Objects
mod Tests
use varc.Base.{
  ℕ, List, ◌+◌, Bool, true, false, ◌&&◌, ◌||◌, Option, none, some, ◌==◌, if◌then◌else◌, add64,
  sub64, lt64, le64,
}
use varc.ObjectIo.{Span, ReadError, Object}

-- The variables `start` and `end` of `sourceObject.Open` before its checks.
unfoldable pub requested : ℕ → Option Span → ℕ × ℕ
requested size none = (0, size)
requested size (some sp) = (sp.start, if lt64 sp.stop 0 then size else add64 sp.stop 1)

-- The checks of `sourceObject.Open`: the half-open range that it asks `OpenRange` for, or
-- `ErrRangeNotSatisfiable`.
unfoldable pub clamp : ℕ → ℕ × ℕ → Option (ℕ × ℕ)
clamp size (start, stop) =
    let stop' = if lt64 size stop then size else stop in
    if lt64 start 0 || le64 size start
    then none
    else (if le64 stop' start then none else some (start, stop'))

unfoldable pub span_request : ℕ → Option Span → Option (ℕ × ℕ)
span_request size span = clamp size (requested size span)

-- What `OpenRange` does first: it refuses the range, or sends `Range: bytes=first-last`.
pub data RangeRequest : Type 0 where
  invalid_range exceeds_size : RangeRequest
  bytes : ℕ → ℕ → RangeRequest

unfoldable pub range_request : ℕ → ℕ × ℕ → RangeRequest
range_request size (start, stop) =
    if lt64 start 0 || le64 stop start
    then invalid_range
    else (if le64 0 size && lt64 size stop then exceeds_size else bytes start (sub64 stop 1))

-- `source.Object.OpenRange` of a half-open range, with the body that it returns.
pub record Body {ℓ} (S : Type ℓ) : Type ℓ where
  pub open_range : S → ℕ × ℕ → S × Option ReadError
  pub read : S → ℕ → S × (List ℕ × Option ReadError)
  pub close : S → S

module _ {ℓ} {S : Type ℓ} (o : Body S) (not_satisfiable : ReadError) where
  -- The end of `sourceObject.Open`.
  unfoldable pub opened_range : S → Option (ℕ × ℕ) → S × Option ReadError
  opened_range s none = (s, some not_satisfiable)
  opened_range s (some range) = o.open_range s range

  -- `sourceObject` of the given size.
  unfoldable pub source_object : ℕ → Object S
  unfolding opened_range span_request
  source_object size = record {
    open_span = λ s span. opened_range s (span_request size span);
    read = o.read;
    close = o.close;
  }
