-- ===== src/Caddy/Provision/Written.antt =====
-- The options of a cache, written as the lines of a Caddyfile, are read back (caddy/module.go).
use varc.Base.{ℕ, ◌<◌, ◌≤◌, ◌≡◌, ◌∙◌, ap, refl, Option, none, some, List, [], ◌∷◌, int64_half}
use varc.HttpSource.{Text, decimal}
use varc.Cache.Options.{Options}
use varc.Caddy.Caddyfile.{
  CaddyHandler, new_handler, Configured, Setting, Library, one_arg, with_arg, with_value, size_text,
  count_text, depth_text, set_number, configure, and_then, configure_lines, set_upstream,
  configure_segment, unmarshal_caddyfile, sets_max_size, sets_min_free_space, sets_shard_depth,
  sets_max_age, sets_poll_interval, sets_chunk_size, sets_chunk_size_limit, sets_chunk_streams,
  sets_read_ahead, sets_buffer_size, sets_handle_caching, sets_retries,
}
use varc.Caddy.Provision.{options_of, or_default}
use varc.Caddy.Provision.Decimals.{size_text-decimal, count_text-decimal, depth_text-decimal}

-- Options that a Caddyfile can say.
pub record IsWritable (o : Options) : Type 0 where
  pub poll_interval : o.cache_poll_interval < int64_half
  pub max_age : o.cache_max_age < int64_half
  pub handle_caching : o.handle_caching < int64_half
  pub max_size : o.cache_max_size < int64_half
  pub min_free_space : o.cache_min_free_space < int64_half
  pub shard_depth : o.cache_shard_depth ≤ 16
  pub chunk_size : o.chunk_size < int64_half
  pub chunk_size_limit : o.chunk_size_limit < int64_half
  pub chunk_streams : o.chunk_streams < int64_half
  pub read_ahead : o.read_ahead < int64_half
  pub buffer_size : o.buffer_size < int64_half
  pub retries : o.low_level_retries < int64_half

-- The options as lines, where `format` writes a duration.
abbrev pub written : (ℕ → Text) → Options → List (Setting × List Text)
written format o =
    (sets_poll_interval, format o.cache_poll_interval ∷ [])
    ∷ (sets_max_age, format o.cache_max_age ∷ [])
    ∷ (sets_max_size, decimal o.cache_max_size ∷ [])
    ∷ (sets_min_free_space, decimal o.cache_min_free_space ∷ [])
    ∷ (sets_shard_depth, decimal o.cache_shard_depth ∷ [])
    ∷ (sets_chunk_size, decimal o.chunk_size ∷ [])
    ∷ (sets_chunk_size_limit, decimal o.chunk_size_limit ∷ [])
    ∷ (sets_chunk_streams, decimal o.chunk_streams ∷ [])
    ∷ (sets_read_ahead, decimal o.read_ahead ∷ [])
    ∷ (sets_buffer_size, decimal o.buffer_size ∷ [])
    ∷ (sets_handle_caching, format o.handle_caching ∷ [])
    ∷ (sets_retries, decimal o.low_level_retries ∷ [])
    ∷ []

-- The configuration with every option set.
abbrev configured : Text → Options → CaddyHandler
configured upstream o = record (new_handler) {
  upstream = upstream;
  cache_poll_interval = some o.cache_poll_interval;
  cache_max_age = some o.cache_max_age;
  cache_max_size = some o.cache_max_size;
  cache_min_free_space = some o.cache_min_free_space;
  cache_shard_depth = some o.cache_shard_depth;
  chunk_size = some o.chunk_size;
  chunk_size_limit = some o.chunk_size_limit;
  chunk_streams = some o.chunk_streams;
  read_ahead = some o.read_ahead;
  buffer_size = some o.buffer_size;
  handle_caching = some o.handle_caching;
  low_level_retries = some o.low_level_retries;
}

set_number_lem :
    (h : CaddyHandler) (s : Setting) (value : Text → Option ℕ) (put : ℕ → CaddyHandler) (v : Text)
    (n : ℕ)
    → value v ≡ some n
    → set_number h s value put (v ∷ []) ≡ (put n, none)
unfolding set_number with_arg with_value one_arg
set_number_lem h s value put v n e = rw e refl

and_then_lem :
    (a : Configured) (h : CaddyHandler) (next : CaddyHandler → Configured) (r : Configured)
    → a ≡ (h, none)
    → next h ≡ r
    → and_then a next ≡ r
unfolding and_then
and_then_lem a h next r e f = ap (λ b. and_then b next) e ∙ f

-- A line that is read, and the lines after it.
line_lem :
    (l : Library) (h h' : CaddyHandler) (s : Setting) (args : List Text)
    (rest : List (Setting × List Text)) (r : Configured)
    → configure l h s args ≡ (h', none)
    → configure_lines l h' rest ≡ r
    → configure_lines l h ((s, args) ∷ rest) ≡ r
unfolding configure_lines
line_lem l h h' s args rest r e f =
    and_then_lem (configure l h s args) h' (λ h''. configure_lines l h'' rest) r e f

configure-poll_interval :
    (l : Library) (h : CaddyHandler) (v : Text) (n : ℕ)
    → l.parse_duration v ≡ some n
    → configure l h sets_poll_interval (v ∷ []) ≡ (record h { cache_poll_interval = some n }, none)
unfolding configure
configure-poll_interval l h v n e =
    set_number_lem h sets_poll_interval l.parse_duration
      (λ k. record h { cache_poll_interval = some k }) v n e

configure-max_age :
    (l : Library) (h : CaddyHandler) (v : Text) (n : ℕ)
    → l.parse_duration v ≡ some n
    → configure l h sets_max_age (v ∷ []) ≡ (record h { cache_max_age = some n }, none)
unfolding configure
configure-max_age l h v n e =
    set_number_lem h sets_max_age l.parse_duration (λ k. record h { cache_max_age = some k }) v n e

configure-max_size :
    (l : Library) (h : CaddyHandler) (v : Text) (n : ℕ)
    → size_text v ≡ some n
    → configure l h sets_max_size (v ∷ []) ≡ (record h { cache_max_size = some n }, none)
unfolding configure
configure-max_size l h v n e =
    set_number_lem h sets_max_size size_text (λ k. record h { cache_max_size = some k }) v n e

configure-min_free_space :
    (l : Library) (h : CaddyHandler) (v : Text) (n : ℕ)
    → size_text v ≡ some n
    → configure l h sets_min_free_space (v ∷ [])
      ≡ (record h { cache_min_free_space = some n }, none)
unfolding configure
configure-min_free_space l h v n e =
    set_number_lem h sets_min_free_space size_text (λ k. record h { cache_min_free_space = some k })
      v n e

configure-shard_depth :
    (l : Library) (h : CaddyHandler) (v : Text) (n : ℕ)
    → depth_text v ≡ some n
    → configure l h sets_shard_depth (v ∷ []) ≡ (record h { cache_shard_depth = some n }, none)
unfolding configure
configure-shard_depth l h v n e =
    set_number_lem h sets_shard_depth depth_text (λ k. record h { cache_shard_depth = some k }) v n
      e

configure-chunk_size :
    (l : Library) (h : CaddyHandler) (v : Text) (n : ℕ)
    → size_text v ≡ some n
    → configure l h sets_chunk_size (v ∷ []) ≡ (record h { chunk_size = some n }, none)
unfolding configure
configure-chunk_size l h v n e =
    set_number_lem h sets_chunk_size size_text (λ k. record h { chunk_size = some k }) v n e

configure-chunk_size_limit :
    (l : Library) (h : CaddyHandler) (v : Text) (n : ℕ)
    → size_text v ≡ some n
    → configure l h sets_chunk_size_limit (v ∷ []) ≡ (record h { chunk_size_limit = some n }, none)
unfolding configure
configure-chunk_size_limit l h v n e =
    set_number_lem h sets_chunk_size_limit size_text (λ k. record h { chunk_size_limit = some k }) v
      n e

configure-chunk_streams :
    (l : Library) (h : CaddyHandler) (v : Text) (n : ℕ)
    → count_text v ≡ some n
    → configure l h sets_chunk_streams (v ∷ []) ≡ (record h { chunk_streams = some n }, none)
unfolding configure
configure-chunk_streams l h v n e =
    set_number_lem h sets_chunk_streams count_text (λ k. record h { chunk_streams = some k }) v n e

configure-read_ahead :
    (l : Library) (h : CaddyHandler) (v : Text) (n : ℕ)
    → size_text v ≡ some n
    → configure l h sets_read_ahead (v ∷ []) ≡ (record h { read_ahead = some n }, none)
unfolding configure
configure-read_ahead l h v n e =
    set_number_lem h sets_read_ahead size_text (λ k. record h { read_ahead = some k }) v n e

configure-buffer_size :
    (l : Library) (h : CaddyHandler) (v : Text) (n : ℕ)
    → size_text v ≡ some n
    → configure l h sets_buffer_size (v ∷ []) ≡ (record h { buffer_size = some n }, none)
unfolding configure
configure-buffer_size l h v n e =
    set_number_lem h sets_buffer_size size_text (λ k. record h { buffer_size = some k }) v n e

configure-handle_caching :
    (l : Library) (h : CaddyHandler) (v : Text) (n : ℕ)
    → l.parse_duration v ≡ some n
    → configure l h sets_handle_caching (v ∷ []) ≡ (record h { handle_caching = some n }, none)
unfolding configure
configure-handle_caching l h v n e =
    set_number_lem h sets_handle_caching l.parse_duration
      (λ k. record h { handle_caching = some k }) v n e

configure-retries :
    (l : Library) (h : CaddyHandler) (v : Text) (n : ℕ)
    → count_text v ≡ some n
    → configure l h sets_retries (v ∷ []) ≡ (record h { low_level_retries = some n }, none)
unfolding configure
configure-retries l h v n e =
    set_number_lem h sets_retries count_text (λ k. record h { low_level_retries = some k }) v n e

end_lem : (l : Library) (h : CaddyHandler) → configure_lines l h [] ≡ (h, none)
unfolding configure_lines
end_lem l h = refl

configure_lines-written :
    (l : Library) (format : ℕ → Text) (upstream : Text) (o : Options)
    → ((d : ℕ) → d < int64_half → l.parse_duration (format d) ≡ some d)
    → IsWritable o
    → configure_lines l (record (new_handler) { upstream = upstream }) (written format o)
      ≡ (configured upstream o, none)
configure_lines-written l format upstream o reads w =
    let h0 : CaddyHandler = record (new_handler) { upstream = upstream } in
    let h1 : CaddyHandler = record h0 { cache_poll_interval = some o.cache_poll_interval } in
    let h2 : CaddyHandler = record h1 { cache_max_age = some o.cache_max_age } in
    let h3 : CaddyHandler = record h2 { cache_max_size = some o.cache_max_size } in
    let h4 : CaddyHandler = record h3 { cache_min_free_space = some o.cache_min_free_space } in
    let h5 : CaddyHandler = record h4 { cache_shard_depth = some o.cache_shard_depth } in
    let h6 : CaddyHandler = record h5 { chunk_size = some o.chunk_size } in
    let h7 : CaddyHandler = record h6 { chunk_size_limit = some o.chunk_size_limit } in
    let h8 : CaddyHandler = record h7 { chunk_streams = some o.chunk_streams } in
    let h9 : CaddyHandler = record h8 { read_ahead = some o.read_ahead } in
    let h10 : CaddyHandler = record h9 { buffer_size = some o.buffer_size } in
    let h11 : CaddyHandler = record h10 { handle_caching = some o.handle_caching } in
    let h12 : CaddyHandler = record h11 { low_level_retries = some o.low_level_retries } in
    line_lem l h0 h1 sets_poll_interval (format o.cache_poll_interval ∷ []) _
      (configured upstream o, none)
      (configure-poll_interval l h0 (format o.cache_poll_interval) o.cache_poll_interval
        (reads o.cache_poll_interval w.poll_interval))
      (line_lem l h1 h2 sets_max_age (format o.cache_max_age ∷ []) _ (configured upstream o, none)
        (configure-max_age l h1 (format o.cache_max_age) o.cache_max_age
          (reads o.cache_max_age w.max_age))
        (line_lem l h2 h3 sets_max_size (decimal o.cache_max_size ∷ []) _
          (configured upstream o, none)
          (configure-max_size l h2 (decimal o.cache_max_size) o.cache_max_size
            (size_text-decimal o.cache_max_size w.max_size))
          (line_lem l h3 h4 sets_min_free_space (decimal o.cache_min_free_space ∷ []) _
            (configured upstream o, none)
            (configure-min_free_space l h3 (decimal o.cache_min_free_space) o.cache_min_free_space
              (size_text-decimal o.cache_min_free_space w.min_free_space))
            (line_lem l h4 h5 sets_shard_depth (decimal o.cache_shard_depth ∷ []) _
              (configured upstream o, none)
              (configure-shard_depth l h4 (decimal o.cache_shard_depth) o.cache_shard_depth
                (depth_text-decimal o.cache_shard_depth w.shard_depth))
              (line_lem l h5 h6 sets_chunk_size (decimal o.chunk_size ∷ []) _
                (configured upstream o, none)
                (configure-chunk_size l h5 (decimal o.chunk_size) o.chunk_size
                  (size_text-decimal o.chunk_size w.chunk_size))
                (line_lem l h6 h7 sets_chunk_size_limit (decimal o.chunk_size_limit ∷ []) _
                  (configured upstream o, none)
                  (configure-chunk_size_limit l h6 (decimal o.chunk_size_limit) o.chunk_size_limit
                    (size_text-decimal o.chunk_size_limit w.chunk_size_limit))
                  (line_lem l h7 h8 sets_chunk_streams (decimal o.chunk_streams ∷ []) _
                    (configured upstream o, none)
                    (configure-chunk_streams l h7 (decimal o.chunk_streams) o.chunk_streams
                      (count_text-decimal o.chunk_streams w.chunk_streams))
                    (line_lem l h8 h9 sets_read_ahead (decimal o.read_ahead ∷ []) _
                      (configured upstream o, none)
                      (configure-read_ahead l h8 (decimal o.read_ahead) o.read_ahead
                        (size_text-decimal o.read_ahead w.read_ahead))
                      (line_lem l h9 h10 sets_buffer_size (decimal o.buffer_size ∷ []) _
                        (configured upstream o, none)
                        (configure-buffer_size l h9 (decimal o.buffer_size) o.buffer_size
                          (size_text-decimal o.buffer_size w.buffer_size))
                        (line_lem l h10 h11 sets_handle_caching (format o.handle_caching ∷ []) _
                          (configured upstream o, none)
                          (configure-handle_caching l h10 (format o.handle_caching) o.handle_caching
                            (reads o.handle_caching w.handle_caching))
                          (line_lem l h11 h12 sets_retries (decimal o.low_level_retries ∷ []) _
                            (configured upstream o, none)
                            (configure-retries l h11 (decimal o.low_level_retries)
                              o.low_level_retries
                              (count_text-decimal o.low_level_retries w.retries))
                            (end_lem l (configured upstream o)))))))))))))

unmarshal_segment :
    (l : Library) (upstream : Text) (lines : List (Setting × List Text)) (h : CaddyHandler)
    → configure_lines l (record (new_handler) { upstream = upstream }) lines ≡ (h, none)
    → unmarshal_caddyfile l new_handler (record { args = upstream ∷ []; lines = lines } ∷ [])
      ≡ (h, none)
unfolding unmarshal_caddyfile configure_segment set_upstream and_then
unmarshal_segment l upstream lines h e = rw e refl

-- For options whose sizes, counts and durations are int64 that are not negative and whose depth is at most 16, and a
-- format that ParseDuration reads back: the Caddyfile with these options as lines is read without an
-- error, and `provision` makes the same options of it.
pub unmarshal-written :
    (l : Library) (format : ℕ → Text) (upstream : Text) (o : Options)
    → ((d : ℕ) → d < int64_half → l.parse_duration (format d) ≡ some d)
    → IsWritable o
    → let r =
        unmarshal_caddyfile l new_handler
          (record { args = upstream ∷ []; lines = written format o } ∷ []) in
      (r.1 ≡ none) × (r.0.upstream ≡ upstream) × (options_of r.0 ≡ o)
unfolding unmarshal_caddyfile configure_segment set_upstream options_of or_default
unmarshal-written l format upstream o reads w =
    let e =
      unmarshal_segment l upstream (written format o) (configured upstream o)
        (configure_lines-written l format upstream o reads w) in
    (
      ap (λ (r : Configured). r.1) e,
      ap (λ (r : Configured). r.0.upstream) e,
      ap (λ (r : Configured). options_of r.0) e,
    )
