-- ===== src/HttpSource.antt =====
-- source/http/source.go: what the source makes of the responses of an origin. A text is the list of its
-- bytes, empty if the header is missing; sizes and offsets are int64.
pub mod Numbers
pub mod Accepts
pub mod Sizes
mod Tests
use varc.Base.{
  ℕ, zero, suc, ◌+◌, ◌-◌, ◌*◌, ◌/◌, ◌%◌, Bool, true, false, not, ◌&&◌, ◌||◌, Option, none, some,
  List, [], ◌∷◌, ◌++◌, ltb, leb, ◌==◌, if◌then◌else◌, add64, sub64, lt64, le64, int64_half,
}
use varc.Origin.{RangeRequest, invalid_range, exceeds_size, bytes, range_request}

abbrev pub Text : Type 0
Text = List ℕ

unfoldable pub same_text : Text → Text → Bool
same_text [] [] = true
same_text (a ∷ s) (b ∷ t) = let rest = same_text s t in (a == b) && rest
same_text [] (b ∷ t) = false
same_text (a ∷ s) [] = false

-- `strings.CutPrefix`
unfoldable pub cut_prefix : Text → Text → Option Text
cut_prefix [] t = some t
cut_prefix (p ∷ ps) [] = none
cut_prefix (p ∷ ps) (c ∷ t) = let rest = cut_prefix ps t in if c == p then rest else none

-- `strings.Cut` at a byte.
unfoldable pub before : ℕ → Option (Text × Text) → Option (Text × Text)
before c none = none
before c (some (a, b)) = some (c ∷ a, b)

unfoldable pub cut : ℕ → Text → Option (Text × Text)
unfolding before
cut sep [] = none
cut sep (c ∷ t) = let rest = cut sep t in if c == sep then some ([], t) else before c rest

-- `strconv.ParseInt` in base 10 to 64 bits: digits after a sign, and the range of an int64.
unfoldable pub digits : ℕ → Text → Option ℕ
digits n [] = some n
digits n (c ∷ t) =
    let rest = digits (n * 10 + (c - 48)) t in if leb 48 c && leb c 57 then rest else none

unfoldable pub number : Text → Option ℕ
number [] = none
number (c ∷ t) = digits 0 (c ∷ t)

unfoldable pub positive : Option ℕ → Option ℕ
positive none = none
positive (some n) = if ltb n int64_half then some n else none

unfoldable pub negative : Option ℕ → Option ℕ
negative none = none
negative (some n) = if leb n int64_half then some (sub64 0 n) else none

unfoldable pub parse_int : Text → Option ℕ
unfolding positive negative
parse_int [] = none
parse_int (c ∷ t) =
    if c == 45
    then negative (number t)
    else (if c == 43 then positive (number t) else positive (number (c ∷ t)))

-- `%d` of a number that is not negative, with a bound on its digits.
unfoldable pub decimal_digits : ℕ → ℕ → Text
decimal_digits zero n = []
decimal_digits (suc k) n =
    let front = decimal_digits k (n / 10) in
    if ltb n 10 then (48 + n) ∷ [] else front ++ (48 + n % 10) ∷ []

unfoldable pub decimal : ℕ → Text
decimal n = decimal_digits (suc n) n

abbrev pub bytes_unit : Text
bytes_unit = 98 ∷ 121 ∷ 116 ∷ 101 ∷ 115 ∷ []

-- The checks of `parseContentRange` on the three numbers.
unfoldable pub in_order : ℕ → ℕ → ℕ → Option (ℕ × ℕ × ℕ)
in_order start end size =
    if lt64 start 0 || lt64 end start || le64 size end then none else some (start, end, size)

unfoldable pub three : Option ℕ → Option ℕ → Option ℕ → Option (ℕ × ℕ × ℕ)
three (some start) (some end) (some size) = in_order start end size
three _ _ _ = none

unfoldable pub parse_parts : Text → Option (Text × Text) → Option (ℕ × ℕ × ℕ)
parse_parts size none = none
parse_parts size (some (start, end)) = three (parse_int start) (parse_int end) (parse_int size)

unfoldable pub parse_after_unit : Option (Text × Text) → Option (ℕ × ℕ × ℕ)
parse_after_unit none = none
parse_after_unit (some (range, size)) =
    if same_text size (42 ∷ []) then none else parse_parts size (cut 45 range)

unfoldable pub parse_unit : Option Text → Option (ℕ × ℕ × ℕ)
parse_unit none = none
parse_unit (some t) = parse_after_unit (cut 47 t)

-- `parseContentRange`
unfoldable pub parse_content_range : Text → Option (ℕ × ℕ × ℕ)
parse_content_range value = parse_unit (cut_prefix (bytes_unit ++ 32 ∷ []) value)

-- `parseUnsatisfiedSize`
unfoldable pub not_negative : Option ℕ → Option ℕ
not_negative none = none
not_negative (some size) = if le64 0 size then some size else none

unfoldable pub parse_size : Option Text → Option ℕ
parse_size none = none
parse_size (some t) = not_negative (parse_int t)

unfoldable pub parse_unsatisfied_size : Text → Option ℕ
parse_unsatisfied_size value = parse_size (cut_prefix (bytes_unit ++ 32 ∷ 42 ∷ 47 ∷ []) value)

-- `source.Metadata`; a time is `none` if it is zero.
pub record Meta : Type 0 where
  pub size : ℕ
  pub etag : Text
  pub last_modified : Option ℕ
  pub content_type : Text

pub record Response : Type 0 where
  pub status : ℕ
  pub content_length : ℕ
  pub content_range : Text
  pub etag : Text
  pub last_modified : Text
  pub content_type : Text

pub data HttpError : Type 0 where
  not_found range_not_satisfiable range_unsupported object_changed : HttpError
  bad_request request_failed bad_status bad_content_range bad_length unknown_size : HttpError

-- What Go's library does with dates and white space: `http.ParseTime`, the format of a date, and
-- `strings.TrimSpace`.
pub record Formats : Type 0 where
  pub parse_time : Text → Option ℕ
  pub format_time : ℕ → Text
  pub trim_space : Text → Text

pub data Stat : Type 0 where
  found : Meta → Stat
  fallback : Stat
  fails : HttpError → Stat

module _ (f : Formats) where
  -- `metadataFromResponse`
  unfoldable pub date_of : Text → Option ℕ
  date_of [] = none
  date_of (c ∷ t) = f.parse_time (c ∷ t)

  unfoldable pub metadata_from_response : Response → ℕ → Meta
  unfolding date_of
  metadata_from_response r size = record {
    size = size;
    etag = r.etag;
    last_modified = date_of r.last_modified;
    content_type = r.content_type;
  }

  -- `statHEAD`, by the response.
  unfoldable pub stat_head : Option Response → Stat
  stat_head none = fails request_failed
  stat_head (some r) =
      if r.status == 404
      then fails not_found
      else (if (r.status == 405) || (r.status == 501)
          then fallback
          else (if ltb r.status 200 || leb 300 r.status
              then fails bad_status
              else (if lt64 r.content_length 0
                  then fallback
                  else found (metadata_from_response r r.content_length))))

  -- The answers of `statRange` to the statuses 416 and 206.
  unfoldable pub stat_unsatisfied : Response → Option ℕ → Stat
  stat_unsatisfied r none = fails range_not_satisfiable
  stat_unsatisfied r (some size) =
      if size == 0 then found (metadata_from_response r 0) else fails range_not_satisfiable

  unfoldable pub stat_partial : Response → Option (ℕ × ℕ × ℕ) → Stat
  stat_partial r none = fails bad_content_range
  stat_partial r (some (start, end, size)) =
      if not (start == 0) || not (end == 0) || lt64 size 1
      then fails bad_content_range
      else found (metadata_from_response r size)

  -- `statRange`, by the response.
  unfoldable pub stat_range : Option Response → Stat
  stat_range none = fails request_failed
  stat_range (some r) =
      if r.status == 404
      then fails not_found
      else (if r.status == 416
          then stat_unsatisfied r (parse_unsatisfied_size r.content_range)
          else (if r.status == 206
              then stat_partial r (parse_content_range r.content_range)
              else (if r.status == 200
                  then (if le64 0 r.content_length
                      then found (metadata_from_response r r.content_length)
                      else fails unknown_size)
                  else fails bad_status)))

  -- `Source.Open`, once the key is resolved.
  unfoldable pub stat_again : Option Response → Stat → Stat
  stat_again second (found m) = found m
  stat_again second fallback = stat_range second
  stat_again second (fails e) = fails e

  unfoldable pub open_source : Option Response → Option Response → Stat
  unfolding stat_again
  open_source head second = stat_again second (stat_head head)

  -- `ifRangeValidator`
  unfoldable pub is_some : Option Text → Bool
  is_some none = false
  is_some (some t) = true

  unfoldable pub strong : Text → Bool
  strong t = not (same_text t []) && not (is_some (cut_prefix (87 ∷ 47 ∷ []) t))

  unfoldable pub date_validator : Option ℕ → Text
  date_validator none = []
  date_validator (some t) = f.format_time t

  unfoldable pub if_range_validator : Meta → Text
  if_range_validator m =
      let etag = f.trim_space m.etag in if strong etag then etag else date_validator m.last_modified

  -- The checks of `OpenRange` on a partial response, in the order of the code.
  unfoldable pub same_part : ℕ → ℕ → Option (ℕ × ℕ × ℕ) → Option ℕ
  same_part start end none = none
  same_part start end (some (got_start, got_end, got_size)) =
      if not (got_start == start) || not (got_end == sub64 end 1) then none else some got_size

  unfoldable pub size_changed : Meta → ℕ → Bool
  size_changed m got = le64 0 m.size && not (got == m.size)

  unfoldable pub etag_changed : Meta → Response → Bool
  etag_changed m r =
      not (same_text m.etag []) && not (same_text r.etag []) && not (same_text r.etag m.etag)

  unfoldable pub time_differs : Option ℕ → Option ℕ → Bool
  time_differs (some want) (some got) = not (got == want)
  time_differs _ _ = false

  unfoldable pub check_part : Meta → ℕ → ℕ → Response → Option ℕ → Option HttpError
  unfolding size_changed etag_changed time_differs date_of
  check_part m start end r none = some bad_content_range
  check_part m start end r (some got) =
      if size_changed m got
      then some object_changed
      else (if le64 0 r.content_length && not (r.content_length == sub64 end start)
          then some bad_length
          else (if etag_changed m r || time_differs m.last_modified (date_of r.last_modified)
              then some object_changed
              else none))

  -- The response of `OpenRange` by its status; `none` is that the body is returned.
  unfoldable pub check_response : Meta → ℕ → ℕ → Response → Option HttpError
  check_response m start end r =
      if r.status == 404
      then some not_found
      else (if r.status == 416
          then some range_not_satisfiable
          else (if r.status == 200
              then (if same_text (if_range_validator m) []
                  then some range_unsupported
                  else some object_changed)
              else (if r.status == 206
                  then check_part m start end r
                      (same_part start end (parse_content_range r.content_range))
                  else some bad_status)))

  -- `OpenRange`: `send` is given the first and the last byte of the request and its `If-Range`.
  unfoldable pub check_sent : Meta → ℕ → ℕ → Option Response → Option HttpError
  check_sent m start end none = some request_failed
  check_sent m start end (some r) = check_response m start end r

  unfoldable pub open_requested :
      (ℕ → ℕ → Text → Option Response) → Meta → ℕ → ℕ → RangeRequest → Option HttpError
  open_requested send m start end invalid_range = some bad_request
  open_requested send m start end exceeds_size = some range_not_satisfiable
  open_requested send m start end (bytes first last) =
      check_sent m start end (send first last (if_range_validator m))

  unfoldable pub open_range : (ℕ → ℕ → Text → Option Response) → Meta → ℕ → ℕ → Option HttpError
  open_range send m start end = open_requested send m start end (range_request m.size (start, end))
