-- ===== src/Caddy/Caddyfile.antt =====
-- caddy/module.go: `UnmarshalCaddyfile`. Caddy's Dispenser is given by what it delivers: for each
-- occurrence of the directive its arguments and the lines of its block, each an option with its arguments.
use varc.Base.{ℕ, ◌||◌, Option, none, some, List, [], ◌∷◌, ◌++◌, if◌then◌else◌, lt64}
use varc.HttpSource.{Text, parse_int}
use varc.Caddy.ByteSize.{ByteSize, size, empty_size, invalid_size, too_large, parse_bytes}

-- The configuration of `Handler`. `headers` are the fields and values in the order in which they are
-- added; counts and durations are int64.
pub record CaddyHandler : Type 0 where
  pub upstream : Text
  pub cache_dir : Text
  pub key : Text
  pub headers : Option (List (Text × Text))
  pub cache_poll_interval : Option ℕ
  pub cache_max_age : Option ℕ
  pub cache_max_size : Option ℕ
  pub cache_min_free_space : Option ℕ
  pub cache_shard_depth : Option ℕ
  pub chunk_size : Option ℕ
  pub chunk_size_limit : Option ℕ
  pub chunk_streams : Option ℕ
  pub read_ahead : Option ℕ
  pub buffer_size : Option ℕ
  pub handle_caching : Option ℕ
  pub low_level_retries : Option ℕ

-- `var handler Handler`
unfoldable pub new_handler : CaddyHandler
new_handler = record {
  upstream = [];
  cache_dir = [];
  key = [];
  headers = none;
  cache_poll_interval = none;
  cache_max_age = none;
  cache_max_size = none;
  cache_min_free_space = none;
  cache_shard_depth = none;
  chunk_size = none;
  chunk_size_limit = none;
  chunk_streams = none;
  read_ahead = none;
  buffer_size = none;
  handle_caching = none;
  low_level_retries = none;
}

-- The word of a line: the cases of the switch.
pub data Setting : Type 0 where
  sets_cache_dir sets_key sets_max_size sets_min_free_space sets_shard_depth : Setting
  sets_max_age sets_poll_interval sets_chunk_size sets_chunk_size_limit sets_chunk_streams : Setting
  sets_read_ahead sets_buffer_size sets_handle_caching sets_retries header_up : Setting
  another_word : Text → Setting

pub data ConfigError : Type 0 where
  wrong_arguments : ConfigError
  invalid_value : Setting → ConfigError
  unrecognized : Text → ConfigError

-- `caddy.ParseDuration`, and the canonical form of a header's name.
pub record Library : Type 0 where
  pub parse_duration : Text → Option ℕ
  pub canonical_key : Text → Text

abbrev pub Configured : Type 0
Configured = CaddyHandler × Option ConfigError

-- `oneArg`
unfoldable pub one_arg : List Text → Option Text
one_arg [] = none
one_arg (a ∷ []) = some a
one_arg (a ∷ b ∷ rest) = none

unfoldable pub with_arg : CaddyHandler → (Text → Configured) → Option Text → Configured
with_arg h use_arg none = (h, some wrong_arguments)
with_arg h use_arg (some value) = use_arg value

unfoldable pub with_value : CaddyHandler → Setting → (ℕ → CaddyHandler) → Option ℕ → Configured
with_value h setting put none = (h, some (invalid_value setting))
with_value h setting put (some n) = (put n, none)

unfoldable pub size_value : ByteSize → Option ℕ
size_value (size n) = some n
size_value empty_size = none
size_value invalid_size = none
size_value too_large = none

-- `strconv.Atoi` with the checks on a count and on `shard_depth`.
unfoldable pub count_value : Option ℕ → Option ℕ
count_value none = none
count_value (some n) = if lt64 n 0 then none else some n

unfoldable pub depth_value : Option ℕ → Option ℕ
depth_value none = none
depth_value (some n) = if lt64 n 0 || lt64 16 n then none else some n

-- `strings.Join` with a space.
unfoldable pub join : Text → List Text → Text
join value [] = value
join value (next ∷ rest) = value ++ 32 ∷ join next rest

unfoldable pub headers_or_none : Option (List (Text × Text)) → List (Text × Text)
headers_or_none none = []
headers_or_none (some hs) = hs

unfoldable pub add_header : Library → CaddyHandler → List Text → Configured
unfolding headers_or_none
add_header l h (field ∷ value ∷ rest) =
    let added : Text × Text = (l.canonical_key field, join value rest) in
    (record h { headers = some (headers_or_none h.headers ++ added ∷ []) }, none)
add_header l h [] = (h, some wrong_arguments)
add_header l h (field ∷ []) = (h, some wrong_arguments)

-- A case of the switch for a size, a duration or a count, of which `value` is read.
unfoldable pub set_number :
    CaddyHandler → Setting → (Text → Option ℕ) → (ℕ → CaddyHandler) → List Text → Configured
unfolding with_arg with_value one_arg
set_number h setting value put args =
    with_arg h (λ v. with_value h setting put (value v)) (one_arg args)

unfoldable pub size_text : Text → Option ℕ
unfolding size_value
size_text v = size_value (parse_bytes v)

unfoldable pub count_text : Text → Option ℕ
unfolding count_value
count_text v = count_value (parse_int v)

unfoldable pub depth_text : Text → Option ℕ
unfolding depth_value
depth_text v = depth_value (parse_int v)

-- The switch.
unfoldable pub configure : Library → CaddyHandler → Setting → List Text → Configured
unfolding with_arg one_arg set_number add_header
configure l h sets_cache_dir args =
    with_arg h (λ v. (record h { cache_dir = v }, none)) (one_arg args)
configure l h sets_key args = with_arg h (λ v. (record h { key = v }, none)) (one_arg args)
configure l h sets_max_size args =
    set_number h sets_max_size size_text (λ n. record h { cache_max_size = some n }) args
configure l h sets_min_free_space args =
    set_number h sets_min_free_space size_text (λ n. record h { cache_min_free_space = some n })
      args
configure l h sets_shard_depth args =
    set_number h sets_shard_depth depth_text (λ n. record h { cache_shard_depth = some n }) args
configure l h sets_max_age args =
    set_number h sets_max_age l.parse_duration (λ n. record h { cache_max_age = some n }) args
configure l h sets_poll_interval args =
    set_number h sets_poll_interval l.parse_duration
      (λ n. record h { cache_poll_interval = some n }) args
configure l h sets_chunk_size args =
    set_number h sets_chunk_size size_text (λ n. record h { chunk_size = some n }) args
configure l h sets_chunk_size_limit args =
    set_number h sets_chunk_size_limit size_text (λ n. record h { chunk_size_limit = some n }) args
configure l h sets_chunk_streams args =
    set_number h sets_chunk_streams count_text (λ n. record h { chunk_streams = some n }) args
configure l h sets_read_ahead args =
    set_number h sets_read_ahead size_text (λ n. record h { read_ahead = some n }) args
configure l h sets_buffer_size args =
    set_number h sets_buffer_size size_text (λ n. record h { buffer_size = some n }) args
configure l h sets_handle_caching args =
    set_number h sets_handle_caching l.parse_duration (λ n. record h { handle_caching = some n })
      args
configure l h sets_retries args =
    set_number h sets_retries count_text (λ n. record h { low_level_retries = some n }) args
configure l h header_up args = add_header l h args
configure l h (another_word word) args = (h, some (unrecognized word))

-- An error ends a loop.
unfoldable pub and_then : Configured → (CaddyHandler → Configured) → Configured
and_then (h, some e) next = (h, some e)
and_then (h, none) next = next h

-- The loop over the lines of a block.
unfoldable pub configure_lines : Library → CaddyHandler → List (Setting × List Text) → Configured
unfolding and_then configure
configure_lines l h [] = (h, none)
configure_lines l h ((setting, args) ∷ rest) =
    and_then (configure l h setting args) (λ h'. configure_lines l h' rest)

pub record Segment : Type 0 where
  pub args : List Text
  pub lines : List (Setting × List Text)

-- The directive's arguments: the upstream is set before another argument is refused.
unfoldable pub set_upstream : CaddyHandler → List Text → Configured
set_upstream h [] = (h, some wrong_arguments)
set_upstream h (upstream ∷ []) = (record h { upstream = upstream }, none)
set_upstream h (upstream ∷ more ∷ rest) = (record h { upstream = upstream }, some wrong_arguments)

unfoldable pub configure_segment : Library → CaddyHandler → Segment → Configured
unfolding and_then set_upstream configure_lines
configure_segment l h seg =
    and_then (set_upstream h seg.args) (λ h'. configure_lines l h' seg.lines)

-- `UnmarshalCaddyfile`
unfoldable pub unmarshal_caddyfile : Library → CaddyHandler → List Segment → Configured
unfolding and_then configure_segment
unmarshal_caddyfile l h [] = (h, none)
unmarshal_caddyfile l h (seg ∷ rest) =
    and_then (configure_segment l h seg) (λ h'. unmarshal_caddyfile l h' rest)
