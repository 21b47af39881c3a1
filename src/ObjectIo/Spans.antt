-- ===== src/ObjectIo/Spans.antt =====
-- The object's promises, and the spans for which a reader opens it
-- (internal/engine/objectio/retry_reader.go).
use varc.Base.{
  ℕ, min, ◌+◌, ◌<◌, ◌≤◌, ◌≡◌, inl, inr, refl, arith, false, Option, none, some, length, get_or,
  ◌==◌, if◌then◌else◌, add64, sub64, lt64, int64_half, Bool-cases,
}
use varc.Base.Int64.{add64_small}
use varc.ObjectIo.{Span, eof, Object, RetryReader, new_reader, span_for_open}

-- Where a span of an object of `size` bytes begins, and the place after its end.
abbrev pub span_start : Option Span → ℕ
span_start none = 0
span_start (some sp) = sp.start

abbrev pub span_stop : ℕ → Option Span → ℕ
span_stop size none = size
span_stop size (some sp) = if lt64 sp.stop 0 then size else add64 sp.stop 1

-- Where an opened stream ends: where its span does, or with the object if that is before.
abbrev pub stream_stop : ℕ → Option Span → ℕ
stream_stop size sp = min size (span_stop size sp)

-- What `Object.Open` and `io.Reader` promise of an object with the bytes `origin`, where a stream
-- stands at `pos` and ends at `stop`: an opened stream begins as the span says and ends as it says or with
-- the object, as sourceObject.Open cuts it; reads are the next bytes, as many as were asked for or
-- fewer, and the end is reported at the end.
pub record IsObject {ℓ} {S : Type ℓ} (o : Object S) (origin : ℕ → ℕ) (size : ℕ) (pos stop : S → ℕ)
    : Type ℓ where
  pub opens :
      (s : S) (sp : Option Span)
      → (o.open_span s sp).1 ≡ none
      → pos (o.open_span s sp).0 ≡ span_start sp
  pub stops :
      (s : S) (sp : Option Span)
      → (o.open_span s sp).1 ≡ none
      → stop (o.open_span s sp).0 ≡ stream_stop size sp
  pub sound :
      (s : S) (n i : ℕ)
      → i < length (o.read s n).1.0
      → get_or (o.read s n).1.0 i 0 ≡ origin (pos s + i)
  pub bound : (s : S) (n : ℕ) → length (o.read s n).1.0 ≤ n
  pub moves : (s : S) (n : ℕ) → pos (o.read s n).0 ≡ pos s + length (o.read s n).1.0
  pub keeps : (s : S) (n : ℕ) → stop (o.read s n).0 ≡ stop s
  pub within : (s : S) (n : ℕ) → pos s ≤ size → pos s + length (o.read s n).1.0 ≤ size
  pub ends : (s : S) (n : ℕ) → (o.read s n).1.1 ≡ some eof → pos (o.read s n).0 ≡ stop s

-- A read of at least one byte that returns nothing returns an error.
abbrev pub Progresses {ℓ} : {S : Type ℓ} → Object S → Type ℓ
Progresses {S = S} o =
    (s : S) (n : ℕ) → 0 < n → (o.read s n).1.1 ≡ none → 0 < length (o.read s n).1.0

-- The fields of a reader of the bytes from `begin` to `fin`.
pub record IsReader (size begin fin : ℕ) (h : RetryReader) : Type 0 where
  pub starts : h.start ≡ begin
  pub base_start : span_start h.base_span ≡ begin
  pub base_stop : span_stop size h.base_span ≡ fin
  pub ends : h.stop ≡ fin
  pub small : fin < int64_half
  pub nothing : fin ≡ 0 → size ≡ 0

pub span_for_open_start :
    (size begin fin : ℕ) (h : RetryReader)
    → IsReader size begin fin h
    → begin + h.offset < int64_half
    → span_start (span_for_open h) ≡ begin + h.offset
unfolding span_for_open
span_for_open_start size begin fin h v small = elim (Bool-cases (h.offset == 0)) [
  | inl e ↦ rw e (ground (arith, v.base_start))
  | inr e ↦ rw (e, v.starts, add64_small begin h.offset small) refl
]

stop_again :
    (size fin : ℕ)
    → fin < int64_half
    → (fin ≡ 0 → size ≡ 0)
    → (if lt64 (sub64 fin 1) 0 then size else add64 (sub64 fin 1) 1) ≡ fin
unfolding lt64 sub64 add64
stop_again size fin small nothing = ground arith

not_negative : (a : ℕ) → a < int64_half → lt64 a 0 ≡ false
unfolding lt64
not_negative a small = ground arith

pub span_for_open_stop :
    (size begin fin : ℕ) (h : RetryReader)
    → IsReader size begin fin h
    → span_stop size (span_for_open h) ≡ fin
unfolding span_for_open
span_for_open_stop size begin fin h v = elim (Bool-cases (h.offset == 0)) [
  | inl e ↦ rw e v.base_stop
  | inr e ↦ rw (e, v.ends, not_negative fin v.small) (stop_again size fin v.small v.nothing)
]

pub new_reader-IsReader :
    (size begin fin max_tries : ℕ) (span : Option Span)
    → span_start span ≡ begin
    → span_stop size span ≡ fin
    → fin < int64_half
    → (fin ≡ 0 → size ≡ 0)
    → IsReader size begin fin (new_reader size max_tries span)
      × ((new_reader size max_tries span).offset ≡ 0)
unfolding new_reader
new_reader-IsReader size begin fin max_tries none at until small nothing = (
  record {
    starts = at;
    base_start = at;
    base_stop = until;
    ends = until;
    small = small;
    nothing = nothing;
  },
  refl,
)
new_reader-IsReader size begin fin max_tries (some sp) at until small nothing = (
  record {
    starts = at;
    base_start = at;
    base_stop = until;
    ends = until;
    small = small;
    nothing = nothing;
  },
  refl,
)
