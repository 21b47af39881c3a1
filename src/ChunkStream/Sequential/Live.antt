-- ===== src/ChunkStream/Sequential/Live.antt =====
-- What the object promises the sequential reader, and that the stream which the reader opens begins
-- and ends with its chunk (internal/engine/chunkstream/sequential.go).
use varc.Base.{
  ℕ, ◌+◌, ◌-◌, ◌<◌, ◌≤◌, ◌≡◌, ◌≢◌, ◌∙◌, ap, ◌⊎◌, inl, inr, refl, arith, min, Bool, true, false,
  Option, none, some, List, length, get_or, ◌==◌, if◌then◌else◌, add64, sub64, lt64, le64,
  minus_one, int64_half, Bool-cases,
}
use varc.Base.Int64.{add64_small, sub64_small, le64_small, lt64_small}
use varc.ObjectIo.{Span, ReadError, eof}
use varc.ObjectIo.Spans.{span_start, span_stop}
use varc.ChunkStream.{Source}
use varc.ChunkStream.Sequential.{
  Sequential, ChunkError, source_error, chunk_span, replaced, reset_reader, opened_range,
  sought_range, open_range,
}

-- Where a chunk ends, for an object of `size` bytes; a chunk of no positive length ends with it.
unfoldable pub chunk_end : ℕ → ℕ → ℕ → ℕ
chunk_end size offset length = if le64 length 0 then size else min size (offset + length)

-- A size of a chunk: no limit, or at most `bound`.
abbrev pub IsChunkSize : ℕ → ℕ → Type 0
IsChunkSize bound n = (n ≡ minus_one) ⊎ ((0 < n) × (n ≤ bound))

pub record IsChunked (bound : ℕ) (c : Sequential) : Type 0 where
  pub still_open : c.closed ≡ false
  pub sized : IsChunkSize bound c.chunk_size
  pub initially : IsChunkSize bound c.initial_chunk_size
  pub at_most : IsChunkSize bound c.max_chunk_size

chunk_end_endless : (size offset : ℕ) → chunk_end size offset minus_one ≡ size
unfolding chunk_end le64
chunk_end_endless size offset = refl

chunk_end-min :
    (size offset n : ℕ) → 0 < n → n < int64_half → chunk_end size offset n ≡ min size (offset + n)
unfolding chunk_end le64
chunk_end-min size offset n pos small = ground arith

not_le : (a b : ℕ) → a < int64_half → b < a → le64 a b ≡ false
not_le a b small less = le64_small a b small (omega arith) ∙ ground arith

not_lt : (a b : ℕ) → a < int64_half → b ≤ a → lt64 a b ≡ false
not_lt a b small le = lt64_small a b small (omega arith) ∙ ground arith

pub chunk_end_le : (size offset n : ℕ) → chunk_end size offset n ≤ size
unfolding chunk_end
chunk_end_le size offset n = ground arith

-- A place before the end of the chunk.
pub le-chunk_end :
    (size bound offset n p : ℕ)
    → bound < int64_half
    → IsChunkSize bound n
    → p ≤ size
    → (lt64 0 n ≡ true → p ≤ offset + n)
    → p ≤ chunk_end size offset n
le-chunk_end size bound offset n p small (inl e) le inside =
    rw (e, chunk_end_endless size offset) le
le-chunk_end size bound offset n p small (inr (positive, most)) le inside =
    let le' = inside (lt64_small 0 n (omega arith) (omega arith) ∙ ground arith) in
    rw (chunk_end-min size offset n positive (omega arith)) (omega arith)

-- A stream that ends before its chunk ends with the object.
pub chunk_end_size :
    (size bound offset n q : ℕ)
    → bound < int64_half
    → IsChunkSize bound n
    → q ≡ chunk_end size offset n
    → (lt64 0 n ≡ true → q < offset + n)
    → q ≡ size
chunk_end_size size bound offset n q small (inl e) at less =
    at ∙ rw (e, chunk_end_endless size offset) refl
chunk_end_size size bound offset n q small (inr (positive, most)) at less =
    let less' = less (lt64_small 0 n (omega arith) (omega arith) ∙ ground arith) in
    omega (arith, at, chunk_end-min size offset n positive (omega arith))

pub source_error_injective :
    {e f : ReadError} → some (source_error e) ≡ some (source_error f) → e ≡ f
source_error_injective h = cc

-- A chunk with a positive size has a place for the next byte.
before_end :
    (bound offset n : ℕ)
    → bound < int64_half
    → IsChunkSize bound n
    → lt64 0 n ≡ true
    → offset < offset + n
unfolding lt64
before_end bound offset n small (inl e) h = absurd (ground (arith, e))
before_end bound offset n small (inr (positive, most)) h = omega arith

module _ {S : Type 0} (origin : ℕ → ℕ) (size bound : ℕ) (pos stop : S → ℕ) where
  -- What `io.Reader` promises of a read of `n` bytes, where a stream stands at `pos` and ends at
  -- `stop`: the next bytes, as many as asked for or fewer, none only with an error, and EOF at the end.
  pub record Answers (s : S) (n : ℕ) (a : S × List ℕ × Option ReadError) : Type 0 where
    pub few : length a.1 ≤ n
    pub sound : (i : ℕ) → i < length a.1 → get_or a.1 i 0 ≡ origin (pos s + i)
    pub moves : pos a.0 ≡ pos s + length a.1
    pub keeps : stop a.0 ≡ stop s
    pub within : pos s ≤ stop s → pos a.0 ≤ stop s
    pub ends : a.2 ≡ some eof → pos a.0 ≡ stop s
    pub progress : 0 < n → a.2 ≡ none → 0 < length a.1

  -- A stream of a span, once it is the current one.
  pub record Covers (begin fin : ℕ) (s : S) : Type 0 where
    pub begins : pos s ≡ begin
    pub until : stop s ≡ fin

  -- What is opened covers the span as soon as it is the current stream, whether an old one was closed
  -- before or there was none.
  pub record Opens (o : Source S) (sp : Option Span) (a : S × Option ReadError) : Type 0 where
    pub first : a.1 ≡ none → Covers (span_start sp) (min size (span_stop size sp)) (o.adopt a.0)
    pub after :
        a.1 ≡ none
        → (o.close a.0).1 ≡ none
        → Covers (span_start sp) (min size (span_stop size sp)) (o.adopt (o.close a.0).0)
    pub no_end : a.1 ≢ some eof

  pub record IsSource (o : Source S) : Type 0 where
    pub sizes : o.size ≡ size
    pub answers : (s : S) (n : ℕ) → Answers s n (o.read s n)
    pub opens : (s : S) (sp : Option Span) → Opens o sp (o.open_span s sp)
    pub closes : (s : S) → (o.close s).1 ≢ some eof
    -- A RangeSeek that moved to the offset limits the stream to the length.
    pub seeks :
        (s : S) (offset length : ℕ)
        → (o.range_seek s offset length).1 ≡ true
        → Covers offset (chunk_end size offset length) (o.range_seek s offset length).0

  -- A stream is open and stands before the end of the chunk.
  pub record IsReady (p : ℕ) (c : Sequential) (s : S) : Type 0 where
    pub chunked : IsChunked bound c
    pub has_stream : c.opened ≡ true
    pub at : c.offset ≡ p
    pub covers : Covers p (chunk_end size c.chunk_offset c.chunk_size) s
    pub in_chunk : c.chunk_offset ≤ p
    pub in_size : p ≤ size
    pub before : lt64 0 c.chunk_size ≡ true → p < c.chunk_offset + c.chunk_size

  pub record Prepared (p : ℕ) (a : Sequential × S × Option ChunkError) : Type 0 where
    pub ready : a.2 ≡ none → IsReady p a.0 a.1
    pub no_end : a.2 ≢ some (source_error eof)

  module _ (o : Source S) (source : IsSource o) (fits : size + bound < int64_half) where
    span_chunk :
        (offset n : ℕ)
        → offset ≤ size
        → IsChunkSize bound n
        → (span_start (chunk_span offset n) ≡ offset)
          × (min size (span_stop size (chunk_span offset n)) ≡ chunk_end size offset n)
    unfolding chunk_span chunk_end le64 lt64
    span_chunk offset n le (inl e) = rw e (elim (Bool-cases (offset == 0)) [
      | inl z ↦ rw z (ground arith, omega arith)
      | inr z ↦ rw z (refl, omega arith)
    ])
    span_chunk offset n le (inr (positive, most)) =
        let some_length : le64 n 0 ≡ false = not_le n 0 (omega arith) positive in
        let stops : sub64 (add64 offset n) 1 ≡ offset + n - 1 =
          rw (add64_small offset n (omega arith))
            (sub64_small (offset + n) 1 (omega arith) (omega arith)) in
        let after : add64 (offset + n - 1) 1 ≡ offset + n =
          add64_small (offset + n - 1) 1 (omega arith) ∙ omega arith in
        let ahead : lt64 (offset + n - 1) 0 ≡ false =
          not_lt (offset + n - 1) 0 (omega arith) (omega arith) in
        rw some_length (rw stops (refl, rw (ahead, after) refl))

    replaced-Prepared :
        (c : Sequential) (a : S × Option ReadError)
        → IsChunked bound c
        → c.chunk_offset ≤ size
        → (a.1 ≡ none
            → Covers c.chunk_offset (chunk_end size c.chunk_offset c.chunk_size) (o.adopt a.0))
        → a.1 ≢ some eof
        → Prepared c.chunk_offset (replaced o c c.chunk_offset a)
    unfolding replaced
    replaced-Prepared c (s, some e) chunked le covers other = record {
      ready = λ h. cc;
      no_end = λ h. other (ap some (source_error_injective h));
    }
    replaced-Prepared c (s, none) chunked le covers other = record {
      ready = λ _. record {
        chunked = record {
          still_open = chunked.still_open;
          sized = chunked.sized;
          initially = chunked.initially;
          at_most = chunked.at_most;
        };
        has_stream = refl;
        at = refl;
        covers = covers refl;
        in_chunk = omega arith;
        in_size = le;
        before = λ h. before_end bound c.chunk_offset c.chunk_size (omega arith) chunked.sized h;
      };
      no_end = λ h. cc;
    }

    opened_range-Prepared :
        (c : Sequential) (a : S × Option ReadError)
        → IsChunked bound c
        → c.chunk_offset ≤ size
        → Opens o (chunk_span c.chunk_offset c.chunk_size) a
        → Prepared c.chunk_offset (opened_range o c a)
    unfolding opened_range reset_reader
    opened_range-Prepared c (s, some e) chunked le opens = record {
      ready = λ h. cc;
      no_end = λ h. opens.no_end (ap some (source_error_injective h));
    }
    opened_range-Prepared c (s, none) chunked le opens =
        let where_ = span_chunk c.chunk_offset c.chunk_size le chunked.sized in
        elim (Bool-cases c.opened) [
          | inl y ↦ simp y (
              replaced-Prepared c (o.close s) chunked le
                (λ h. record {
                  begins = (opens.after refl h).begins ∙ where_.0;
                  until = (opens.after refl h).until ∙ where_.1;
                })
                (source.closes s))
          | inr n ↦ simp n (
              replaced-Prepared c (s, none) chunked le
                (λ h. record {
                  begins = (opens.first refl).begins ∙ where_.0;
                  until = (opens.first refl).until ∙ where_.1;
                })
                (λ h. cc))
        ]

    sought_range-Prepared :
        (c : Sequential) (a : S × Bool)
        → IsChunked bound c
        → c.chunk_offset ≤ size
        → (a.1 ≡ true
            → (c.opened ≡ true)
              × Covers c.chunk_offset (chunk_end size c.chunk_offset c.chunk_size) a.0)
        → Prepared c.chunk_offset (sought_range o c a)
    unfolding sought_range
    sought_range-Prepared c (s, false) chunked le covers =
        opened_range-Prepared c (o.open_span s (chunk_span c.chunk_offset c.chunk_size)) chunked le
          (source.opens s (chunk_span c.chunk_offset c.chunk_size))
    sought_range-Prepared c (s, true) chunked le covers = record {
      ready = λ _. record {
        chunked = record {
          still_open = chunked.still_open;
          sized = chunked.sized;
          initially = chunked.initially;
          at_most = chunked.at_most;
        };
        has_stream = (covers refl).0;
        at = refl;
        covers = (covers refl).1;
        in_chunk = omega arith;
        in_size = le;
        before = λ h. before_end bound c.chunk_offset c.chunk_size (omega arith) chunked.sized h;
      };
      no_end = λ h. cc;
    }

    pub open_range-Prepared :
        (c : Sequential) (s : S)
        → IsChunked bound c
        → c.chunk_offset ≤ size
        → Prepared c.chunk_offset (open_range o c s)
    unfolding open_range
    open_range-Prepared c s chunked le = simp (chunked.still_open) (elim (Bool-cases c.opened) [
      | inl y ↦ simp y (
          sought_range-Prepared c (o.range_seek s c.chunk_offset c.chunk_size) chunked le
            (λ h. (y, source.seeks s c.chunk_offset c.chunk_size h)))
      | inr n ↦ simp n (sought_range-Prepared c (s, false) chunked le (λ h. cc))
    ])
