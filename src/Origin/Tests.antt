-- ===== src/Origin/Tests.antt =====
-- Spans of an object of ten bytes.
use varc.Base.{
  ℕ, ◌+◌, ◌≡◌, refl, arith, true, false, ◌&&◌, none, some, [], ◌∷◌, ltb, ◌==◌, if◌then◌else◌, add64,
  lt64, le64,
}
use varc.ObjectIo.{Span, eof, failed}
use varc.ObjectIo.Spans.{IsObject}
use varc.Origin.{span_request, requested, clamp, Body, source_object}
use varc.Origin.Objects.{IsBody, source_object-IsObject}
use varc.Origin.Requests.{in_span, IsSpan, Requests, span_request-Requests}

abbrev span : Span
span = record { start = 4; stop = 20 }

span-IsSpan : IsSpan (some span)
span-IsSpan = (omega arith, omega arith, λ _. omega arith)

-- The end is clipped to the object.
span_request_test : span_request 10 (some span) ≡ some (4, 10)
unfolding span_request requested clamp add64 lt64 le64
span_request_test = refl

span_request-Requests_example : Requests 10 (in_span (some span)) (span_request 10 (some span))
span_request-Requests_example = span_request-Requests 10 (some span) (omega arith) span-IsSpan

record Place : Type 0 where
  at : ℕ
  fin : ℕ

-- An object of ten bytes, each its place and 100, whose bodies give a byte at a time.
abbrev ten_bytes : Body Place
ten_bytes = record {
  open_range = λ s (begin, end). (record { at = begin; fin = end }, none);
  read = λ s n.
      if s.at == s.fin
      then (s, ([], some eof))
      else (if ltb 0 n && ltb s.at 10
          then (record s { at = s.at + 1 }, ((s.at + 100) ∷ [], none))
          else (s, ([], if n == 0 then none else some (failed 1 true))));
  close = λ s. s;
}

ten_bytes-IsBody : IsBody ten_bytes (λ x. x + 100) 10 (λ s. s.at) (λ s. s.fin)
ten_bytes-IsBody = record {
  opens = λ s begin end ok. refl;
  stops = λ s begin end ok. refl;
  sound = λ s n i lt. ground arith;
  bound = λ s n. ground arith;
  moves = λ s n. ground arith;
  keeps = λ s n. ground arith;
  within = λ s n le. ground arith;
  ends = λ s n e. ground arith;
}

source_object-IsObject_example :
    IsObject
      (source_object ten_bytes (failed 2 false) 10)
      (λ x. x + 100)
      10
      (λ s. s.at)
      (λ s. s.fin)
source_object-IsObject_example =
    source_object-IsObject ten_bytes (failed 2 false) (λ x. x + 100) 10 (λ s. s.at) (λ s. s.fin)
      ten_bytes-IsBody (omega arith)
