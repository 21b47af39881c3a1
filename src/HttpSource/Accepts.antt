-- ===== src/HttpSource/Accepts.antt =====
-- Which responses `OpenRange` and `Open` accept (source/http/source.go).
use mathlib.Core.Option.{some-injective}
use varc.Base.{
  ℕ, ◌≡◌, ◌∙◌, inl, inr, refl, sym, ap, arith, Bool, true, false, not, ◌&&◌, ◌||◌, Option, none,
  some, [], ◌∷◌, ◌==◌, if◌then◌else◌, lt64, le64, sub64, Bool-cases,
}
use varc.Origin.{RangeRequest, invalid_range, exceeds_size, bytes, range_request}
use varc.HttpSource.{
  Text, same_text, Meta, Response, HttpError, object_changed, bad_length, not_found,
  range_not_satisfiable, range_unsupported, bad_status, Formats, parse_content_range, date_of,
  if_range_validator, same_part, size_changed, etag_changed, time_differs, check_part,
  check_response, check_sent, open_requested, open_range,
}

refuse :
    (x : HttpError) (b : Bool) (rest : Option HttpError)
    → (if b then some x else rest) ≡ none
    → (b ≡ false) × (rest ≡ none)
refuse x true rest h = absurd (cc (h))
refuse x false rest h = (refl, h)

only :
    (x : HttpError) (b : Bool) (part : Option HttpError)
    → (if b then part else some x) ≡ none
    → (b ≡ true) × (part ≡ none)
only x true part h = (refl, h)
only x false part h = absurd (cc (h))

refuse_both :
    (x y : HttpError) (b c : Bool) (rest : Option HttpError)
    → (if b then (if c then some x else some y) else rest) ≡ none
    → (b ≡ false) × (rest ≡ none)
refuse_both x y true true rest h = absurd (cc (h))
refuse_both x y true false rest h = absurd (cc (h))
refuse_both x y false c rest h = (refl, h)

both_true : (b c : Bool) → b && c ≡ true → (b ≡ true) × (c ≡ true)
both_true true true e = (refl, refl)
both_true true false e = absurd (cc (e))
both_true false c e = absurd (cc (e))

both_false : (b c : Bool) → b || c ≡ false → (b ≡ false) × (c ≡ false)
both_false true c e = absurd (cc (e))
both_false false c e = (refl, e)

-- An ETag that was not found to have changed.
unchanged : (b c d : Bool) → not b && not c && not d ≡ false → b ≡ false → c ≡ false → d ≡ true
unchanged true c d e h k = absurd (cc (h))
unchanged false true d e h k = absurd (cc (k))
unchanged false false true e h k = refl
unchanged false false false e h k = absurd (cc (e))

same_time :
    (f : Formats) (o p : Option ℕ) (want got : ℕ)
    → time_differs f o p ≡ false
    → o ≡ some want
    → p ≡ some got
    → got ≡ want
unfolding time_differs
same_time f none p want got e h k = absurd (cc (h))
same_time f (some a) none want got e h k = absurd (cc (k))
same_time f (some a) (some b) want got e h k =
    let a' : a ≡ want = some-injective a want h in
    let b' : b ≡ got = some-injective b got k in let same : b ≡ a = ground arith in omega arith

same_text_lem : (s t : Text) → same_text s t ≡ true → s ≡ t
unfolding same_text
same_text_lem [] [] e = refl
same_text_lem [] (b ∷ t) e = absurd (cc (e))
same_text_lem (a ∷ s) [] e = absurd (cc (e))
same_text_lem (a ∷ s) (b ∷ t) e =
    let (h, rest) = both_true (a == b) (same_text s t) e in
    let head : a ≡ b = ground arith in cc (head, same_text_lem s t rest)

-- A response with exactly the bytes from `start` to before `end`, of an object of the expected size
-- and with validators that do not differ from the expected ones where both are known.
pub record IsPart (f : Formats) (m : Meta) (start end : ℕ) (r : Response) : Type 0 where
  pub status : r.status ≡ 206
  pub range :
      (size : ℕ) × (parse_content_range r.content_range ≡ some (start, sub64 end 1, size))
      × (le64 0 m.size ≡ true → size ≡ m.size)
  pub length : le64 0 r.content_length ≡ true → r.content_length ≡ sub64 end start
  pub etag : same_text m.etag [] ≡ false → same_text r.etag [] ≡ false → r.etag ≡ m.etag
  pub time :
      (want got : ℕ)
      → m.last_modified ≡ some want
      → date_of f r.last_modified ≡ some got
      → got ≡ want

module _ (f : Formats) (m : Meta) (start end : ℕ) where
  same_part_lem :
      (r : Response) (o : Option (ℕ × ℕ × ℕ))
      → check_part f m start end r (same_part f start end o) ≡ none
      → (got : ℕ) × (o ≡ some (start, sub64 end 1, got))
        × (check_part f m start end r (some got) ≡ none)
  unfolding same_part check_part
  same_part_lem r none h = absurd (cc (h))
  same_part_lem r (some (s, e, got)) h =
      elim (Bool-cases (not (s == start) || not (e == sub64 end 1))) [
        | inl d ↦
            absurd (cc (h, ap (λ b. check_part f m start end r (if b then none else some got)) d))
        | inr d ↦
            let (da, db) = both_false (not (s == start)) (not (e == sub64 end 1)) d in
            let a : s ≡ start = ground arith in
            let b : e ≡ sub64 end 1 = ground arith in
            (
              got,
              cc (a, b),
              sym (ap (λ b. check_part f m start end r (if b then none else some got)) d) ∙ h,
            )
      ]

  check_part-IsPart :
      (r : Response) (got : ℕ)
      → r.status ≡ 206
      → parse_content_range r.content_range ≡ some (start, sub64 end 1, got)
      → check_part f m start end r (some got) ≡ none
      → IsPart f m start end r
  unfolding check_part size_changed etag_changed time_differs
  check_part-IsPart r got s p h =
      let (size, h1) = refuse object_changed (le64 0 m.size && not (got == m.size)) _ h in
      let (len, h2) =
        refuse bad_length (le64 0 r.content_length && not (r.content_length == sub64 end start)) _
          h1 in
      let (valid, h3) =
        refuse object_changed
          (etag_changed f m r || time_differs f m.last_modified (date_of f r.last_modified)) _ h2 in
      let (tag, date) =
        both_false (etag_changed f m r) (time_differs f m.last_modified (date_of f r.last_modified))
          valid in
      record {
        status = s;
        range = (got, p, λ k. ground arith);
        length = λ k. ground arith;
        etag = λ k l. same_text_lem r.etag m.etag (
            unchanged (same_text m.etag []) (same_text r.etag []) (same_text r.etag m.etag) tag k
              l);
        time =
            λ want g k l. same_time f m.last_modified (date_of f r.last_modified) want g date k l;
      }

  check_response-IsPart :
      (r : Response) → check_response f m start end r ≡ none → IsPart f m start end r
  unfolding check_response
  check_response-IsPart r h =
      let (_, h1) = refuse not_found (r.status == 404) _ h in
      let (_, h2) = refuse range_not_satisfiable (r.status == 416) _ h1 in
      let (_, h3) =
        refuse_both range_unsupported object_changed (r.status == 200)
          (same_text (if_range_validator f m) []) _ h2 in
      let (s, h4) = only bad_status (r.status == 206) _ h3 in
      let (got, p, h5) = same_part_lem r (parse_content_range r.content_range) h4 in
      check_part-IsPart r got (ground arith) p h5

  sent-IsPart :
      (answer : Option Response)
      → check_sent f m start end answer ≡ none
      → (r : Response) × (answer ≡ some r) × IsPart f m start end r
  unfolding check_sent
  sent-IsPart none h = absurd (cc (h))
  sent-IsPart (some r) h = (r, refl, check_response-IsPart r h)

  requested-IsPart :
      (send : ℕ → ℕ → Text → Option Response) (q : RangeRequest)
      → open_requested f send m start end q ≡ none
      → (first : ℕ) × (last : ℕ) × (r : Response) × (q ≡ bytes first last)
        × (send first last (if_range_validator f m) ≡ some r)
        × IsPart f m start end r
  unfolding open_requested
  requested-IsPart send invalid_range h = absurd (cc (h))
  requested-IsPart send exceeds_size h = absurd (cc (h))
  requested-IsPart send (bytes first last) h =
      let (r, e, p) = sent-IsPart (send first last (if_range_validator f m)) h in
      (first, last, r, refl, e, p)

-- A request that is sent is for the bytes asked for.
bytes-injective : (a b c d : ℕ) → bytes a b ≡ bytes c d → (a ≡ c) × (b ≡ d)
bytes-injective a b c d e = (cc (e), cc (e))

sent_bytes :
    (b c : Bool) (p q first last : ℕ)
    → (if b then invalid_range else (if c then exceeds_size else bytes p q)) ≡ bytes first last
    → (first ≡ p) × (last ≡ q) × (b ≡ false) × (c ≡ false)
sent_bytes true c p q first last h = absurd (cc (h))
sent_bytes false true p q first last h = absurd (cc (h))
sent_bytes false false p q first last h =
    let (a, b) = bytes-injective p q first last h in (sym a, sym b, refl, refl)

request_lem :
    (size start end first last : ℕ)
    → range_request size (start, end) ≡ bytes first last
    → (first ≡ start)
      × (last ≡ sub64 end 1)
      × (lt64 start 0 || le64 end start ≡ false)
      × (le64 0 size && lt64 size end ≡ false)
unfolding range_request
request_lem size start end first last h =
    sent_bytes (lt64 start 0 || le64 end start) (le64 0 size && lt64 size end) start (sub64 end 1)
      first last h

-- The body that `OpenRange` returns is that of the response to a request for exactly the bytes asked
-- for, with the validator that the metadata gives, and only if the range is not empty, does not begin
-- before 0 and does not end after the object. The response has status 206, says that it has these
-- bytes, has the length asked for if it has one, and its size, ETag and date are those expected where
-- both are known.
pub open_range-IsPart :
    (f : Formats) (send : ℕ → ℕ → Text → Option Response) (m : Meta) (start end : ℕ)
    → open_range f send m start end ≡ none
    → (r : Response) × (send start (sub64 end 1) (if_range_validator f m) ≡ some r)
      × IsPart f m start end r
      × (lt64 start 0 || le64 end start ≡ false)
      × (le64 0 m.size && lt64 m.size end ≡ false)
unfolding open_range
open_range-IsPart f send m start end h =
    let (first, last, r, q, e, p) =
      requested-IsPart f m start end send (range_request m.size (start, end)) h in
    let (a, b, c, d) = request_lem m.size start end first last q in (r, cc (a, b, e), p, c, d)
