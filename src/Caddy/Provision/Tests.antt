-- ===== src/Caddy/Provision/Tests.antt =====
-- A size of 10 MiB, a Caddyfile that is read, one that is refused after its first line, and the options
-- of one as lines.
use mathlib.Core.List.Memᴰ.{head, tail}
use varc.Base.{
  ◌*◌, ◌≡◌, refl, arith, true, none, some, List, [], ◌∷◌, ◌++◌, ltb, if◌then◌else◌, lt64, sub64,
  int64_half,
}
use varc.HttpSource.{Text, decimal, parse_int, number, digits, positive, cut_prefix}
use varc.HttpSource.Numbers.{parse_int-decimal}
use varc.Cache.Options.{Options, validate}
use varc.Caddy.ByteSize.{
  parse_bytes, parse_value, multiplied, split_unit, taken_unit, cut_suffix, reversed, to_upper,
  upper_byte, trim_space, trim_left, is_space, size, too_large,
}
use varc.Caddy.ByteSize.Units.{parse_bytes-written}
use varc.Caddy.Caddyfile.{
  new_handler, Library, Segment, invalid_value, one_arg, with_arg, with_value, size_value,
  size_text, set_number, configure, and_then, configure_lines, set_upstream, configure_segment,
  unmarshal_caddyfile, sets_max_size, sets_max_age, sets_retries, sets_chunk_size, count_text,
  count_value,
}
use varc.Caddy.Provision.{
  options_of, normalize_template, replace_from, starts_with, is_set, host_variable,
}
use varc.Caddy.Provision.Accepts.{unmarshal-validate}
use varc.Caddy.Provision.Written.{written, IsWritable, unmarshal-written}

-- MiB
abbrev mib : Text
mib = 77 ∷ 105 ∷ 66 ∷ []

parse_bytes-written_example :
    parse_bytes (decimal 10 ++ (32 ∷ [] ++ mib))
    ≡ (if ltb (10 * 1048576) int64_half then size (10 * 1048576) else too_large)
unfolding is_space to_upper upper_byte
parse_bytes-written_example =
    parse_bytes-written 10 (32 ∷ []) mib (77 ∷ 73 ∷ 66 ∷ []) 1048576 (omega arith) (refl, tt) refl
      (tail (tail (head refl)))

-- " 4kb" and "{host}/".
parse_bytes_test : parse_bytes (32 ∷ 52 ∷ 107 ∷ 98 ∷ []) ≡ size 4000
unfolding parse_bytes parse_value multiplied split_unit taken_unit cut_suffix reversed cut_prefix
    to_upper upper_byte trim_space trim_left is_space parse_int positive number digits lt64
parse_bytes_test = refl

normalize_template_test :
    normalize_template (123 ∷ 104 ∷ 111 ∷ 115 ∷ 116 ∷ 125 ∷ 47 ∷ []) ≡ host_variable ++ 47 ∷ []
unfolding normalize_template replace_from starts_with is_set cut_prefix
normalize_template_test = refl

-- Durations are written as their nanoseconds.
abbrev library : Library
library = record { parse_duration = parse_int; canonical_key = λ t. t }

abbrev segments : List Segment
segments =
    record {
      args = (111 ∷ []) ∷ [];
      lines =
          (sets_max_size, (49 ∷ 107 ∷ 98 ∷ []) ∷ [])
          ∷ (sets_max_age, (55 ∷ []) ∷ [])
          ∷ (sets_retries, (45 ∷ 49 ∷ []) ∷ [])
          ∷ (sets_chunk_size, (50 ∷ []) ∷ [])
          ∷ [];
    }
    ∷ []

unmarshal_test :
    (unmarshal_caddyfile library new_handler segments).1 ≡ some (invalid_value sets_retries)
unfolding unmarshal_caddyfile configure_segment set_upstream and_then configure_lines configure
    set_number with_arg with_value one_arg size_text size_value parse_bytes parse_value multiplied
    split_unit taken_unit cut_suffix reversed cut_prefix to_upper upper_byte trim_space trim_left
    is_space parse_int positive number digits lt64 count_text count_value sub64
unmarshal_test = refl

unmarshal-validate_example :
    validate (options_of (unmarshal_caddyfile library new_handler segments).0) ≡ true
unfolding unmarshal_caddyfile configure_segment set_upstream and_then configure_lines configure
    set_number with_arg with_value one_arg size_text size_value parse_bytes parse_value multiplied
    split_unit taken_unit cut_suffix reversed cut_prefix to_upper upper_byte trim_space trim_left
    is_space parse_int positive number digits lt64 count_text count_value new_handler sub64
unmarshal-validate_example = unmarshal-validate library segments tt refl tt

abbrev options : Options
options = record {
  cache_poll_interval = 60000000000;
  cache_max_age = 0;
  cache_max_size = 5;
  cache_min_free_space = 7;
  cache_shard_depth = 2;
  chunk_size = 1048576;
  chunk_size_limit = 0;
  chunk_streams = 4;
  read_ahead = 1;
  buffer_size = 2;
  handle_caching = 5000000000;
  low_level_retries = 3;
}

options-IsWritable : IsWritable options
options-IsWritable = record {
  poll_interval = omega arith;
  max_age = omega arith;
  handle_caching = omega arith;
  max_size = omega arith;
  min_free_space = omega arith;
  shard_depth = omega arith;
  chunk_size = omega arith;
  chunk_size_limit = omega arith;
  chunk_streams = omega arith;
  read_ahead = omega arith;
  buffer_size = omega arith;
  retries = omega arith;
}

unmarshal-written_example :
    let r =
      unmarshal_caddyfile library new_handler
        (record { args = (111 ∷ []) ∷ []; lines = written decimal options } ∷ []) in
    (r.1 ≡ none) × (r.0.upstream ≡ 111 ∷ []) × (options_of r.0 ≡ options)
unmarshal-written_example =
    unmarshal-written library decimal (111 ∷ []) options parse_int-decimal options-IsWritable
