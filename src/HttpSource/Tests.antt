-- ===== src/HttpSource/Tests.antt =====
-- Responses to requests for an object of ten bytes (source/http/source.go).
use varc.Base.{
  ℕ, ◌≡◌, refl, arith, true, false, ◌&&◌, ◌||◌, Option, none, some, [], ◌∷◌, lt64, le64, sub64,
}
use varc.HttpSource.{
  Text, Meta, Response, Formats, found, parse_content_range, open_source, open_range,
  if_range_validator,
}
use varc.HttpSource.Numbers.{content_range, parse-content_range}
use varc.HttpSource.Accepts.{IsPart, open_range-IsPart}
use varc.HttpSource.Sizes.{Inside, parse_content_range-Inside, open_source-Sized}

abbrev formats : Formats
formats = record { parse_time = λ t. none; format_time = λ t. []; trim_space = λ t. t }

-- `bytes 2-5/10`
abbrev two_to_five : Text
two_to_five = 98 ∷ 121 ∷ 116 ∷ 101 ∷ 115 ∷ 32 ∷ 50 ∷ 45 ∷ 53 ∷ 47 ∷ 49 ∷ 48 ∷ []

abbrev meta : Meta
meta = record { size = 10; etag = 34 ∷ 97 ∷ 34 ∷ []; last_modified = none; content_type = [] }

abbrev partial : Response
partial = record {
  status = 206;
  content_length = 4;
  content_range = two_to_five;
  etag = 34 ∷ 97 ∷ 34 ∷ [];
  last_modified = [];
  content_type = [];
}

abbrev whole : Response
whole = record {
  status = 200;
  content_length = 10;
  content_range = [];
  etag = 34 ∷ 97 ∷ 34 ∷ [];
  last_modified = [];
  content_type = [];
}

abbrev sends : ℕ → ℕ → Text → Option Response
sends first last validator = some partial

two_to_five_lem : parse_content_range two_to_five ≡ some (2, 5, 10)
unfolding parse_content_range varc.HttpSource.parse_unit varc.HttpSource.cut_prefix
    varc.HttpSource.parse_after_unit varc.HttpSource.cut varc.HttpSource.same_text
    varc.HttpSource.parse_parts varc.HttpSource.three varc.HttpSource.parse_int
    varc.HttpSource.number varc.HttpSource.digits varc.HttpSource.in_order lt64 le64
two_to_five_lem = refl

partial_accepted : open_range formats sends meta 2 6 ≡ none
unfolding open_range varc.HttpSource.open_requested varc.Origin.range_request lt64 le64
    varc.HttpSource.check_sent varc.HttpSource.check_response varc.HttpSource.check_part
    varc.HttpSource.same_part parse_content_range varc.HttpSource.parse_unit
    varc.HttpSource.cut_prefix varc.HttpSource.parse_after_unit varc.HttpSource.cut
    varc.HttpSource.same_text varc.HttpSource.parse_parts varc.HttpSource.three sub64
    varc.HttpSource.before varc.HttpSource.date_of varc.HttpSource.date_validator
    varc.HttpSource.digits varc.HttpSource.etag_changed if_range_validator varc.HttpSource.in_order
    varc.HttpSource.is_some varc.HttpSource.negative varc.HttpSource.number
    varc.HttpSource.parse_int varc.HttpSource.positive varc.HttpSource.size_changed
    varc.HttpSource.strong varc.HttpSource.time_differs
partial_accepted = refl

parse-content_range_example : parse_content_range (content_range 2 5 10) ≡ some (2, 5, 10)
parse-content_range_example = parse-content_range 2 5 10 (omega arith) (omega arith) (omega arith)

parse_content_range-Inside_example : Inside (2, 5, 10)
parse_content_range-Inside_example =
    parse_content_range-Inside two_to_five (2, 5, 10) two_to_five_lem

open_range-IsPart_example :
    (r : Response) × (sends 2 (sub64 6 1) (if_range_validator formats meta) ≡ some r)
    × IsPart formats meta 2 6 r
    × (lt64 2 0 || le64 6 2 ≡ false)
    × (le64 0 10 && lt64 10 6 ≡ false)
open_range-IsPart_example = open_range-IsPart formats sends meta 2 6 partial_accepted

whole_found : open_source formats (some whole) none ≡ found meta
unfolding open_source varc.HttpSource.stat_head lt64 varc.HttpSource.metadata_from_response
whole_found = refl

open_source-Sized_example : le64 0 10 ≡ true
open_source-Sized_example = open_source-Sized formats (some whole) none meta whole_found
