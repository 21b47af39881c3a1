-- ===== src/Caddy/Provision/Accepts.antt =====
-- The options of every Caddyfile that the module reads are ones that the cache accepts (caddy/module.go,
-- cache/options.go).
use mathlib.Core.Option.{some-injective}
use varc.Base.{
  ◌-◌, ◌⊎◌, int64_mod, ℕ, ◌<◌, ◌≤◌, ◌≡◌, refl, arith, inl, inr, true, false, Option, none, some,
  List, [], ◌∷◌, ltb, lt64, int64_half, minus_one, Bool-cases,
}
use varc.Base.Int64.{lt64_small}
use varc.HttpSource.{Text, parse_int}
use varc.Cache.Options.{default_options, validate}
use varc.Caddy.ByteSize.{ByteSize, size, empty_size, invalid_size, too_large, parse_bytes}
use varc.Caddy.ByteSize.Bounds.{parse_bytes_bounds, parse_int_small, not_negative_small}
use varc.Caddy.Caddyfile.{
  CaddyHandler, new_handler, Setting, Library, Configured, Segment, one_arg, with_arg, with_value,
  size_value, count_value, depth_value, size_text, count_text, depth_text, set_number, add_header,
  configure, and_then, configure_lines, set_upstream, configure_segment, unmarshal_caddyfile,
  sets_cache_dir, sets_key, sets_max_size, sets_min_free_space, sets_shard_depth, sets_max_age,
  sets_poll_interval, sets_chunk_size, sets_chunk_size_limit, sets_chunk_streams, sets_read_ahead,
  sets_buffer_size, sets_handle_caching, sets_retries, header_up, another_word,
}
use varc.Caddy.Provision.{options_of, or_default}

abbrev AtMost : ℕ → Option ℕ → Type 0
AtMost limit none = Unit {0}
AtMost limit (some n) = n ≤ limit

abbrev largest : ℕ
largest = int64_half - 1

-- The numbers that are set are in their ranges.
abbrev InRange : CaddyHandler → Type 0
InRange h =
    AtMost largest h.cache_max_size
    × AtMost largest h.cache_min_free_space
    × AtMost 16 h.cache_shard_depth
    × AtMost largest h.chunk_size_limit
    × AtMost largest h.read_ahead
    × AtMost largest h.buffer_size
    × AtMost largest h.low_level_retries

size_text_small : (v : Text) (n : ℕ) → size_text v ≡ some n → n ≤ largest
unfolding size_text size_value
size_text_small v n e = go (parse_bytes v) refl e
  where
    go : (b : ByteSize) → parse_bytes v ≡ b → size_value b ≡ some n → n ≤ largest
    go (size k) f e = omega (arith, parse_bytes_bounds v k f, some-injective k n e)
    go empty_size f e = cc
    go invalid_size f e = cc
    go too_large f e = cc

count_value_small :
    (o : Option ℕ) (n : ℕ)
    → ((k : ℕ) → o ≡ some k → k < int64_mod)
    → count_value o ≡ some n
    → n ≤ largest
unfolding count_value
count_value_small none n small e = cc
count_value_small (some k) n small e = elim (Bool-cases (lt64 k 0)) [
  | inl y ↦ let f = rw y at e in cc
  | inr z ↦
      let f = rw z at e in
      omega (arith, not_negative_small k (small k refl) z, some-injective k n f)
]

depth_value_small :
    (o : Option ℕ) (n : ℕ)
    → ((k : ℕ) → o ≡ some k → k < int64_mod)
    → depth_value o ≡ some n
    → n ≤ 16
unfolding depth_value
depth_value_small none n small e = cc
depth_value_small (some k) n small e = elim (Bool-cases (lt64 k 0)) [
  | inl y ↦ let f = rw y at e in cc
  | inr z ↦
      let less = not_negative_small k (small k refl) z in
      let limit : lt64 16 k ≡ ltb 16 k = lt64_small 16 k (omega arith) less in
      elim (Bool-cases (ltb 16 k)) [
        | inl y ↦ let f = rw (z, limit, y) at e in cc
        | inr w ↦
            let f : some k ≡ some n = rw (z, limit, w) at e in ground (arith, some-injective k n f)
      ]
]

with_value-InRange :
    (h : CaddyHandler) (s : Setting) (put : ℕ → CaddyHandler) (o : Option ℕ)
    → InRange h
    → ((n : ℕ) → o ≡ some n → InRange (put n))
    → InRange (with_value h s put o).0
unfolding with_value
with_value-InRange h s put none g puts = g
with_value-InRange h s put (some n) g puts = puts n refl

with_arg-InRange :
    (h : CaddyHandler) (use_arg : Text → Configured) (o : Option Text)
    → InRange h
    → ((v : Text) → InRange (use_arg v).0)
    → InRange (with_arg h use_arg o).0
unfolding with_arg
with_arg-InRange h use_arg none g uses = g
with_arg-InRange h use_arg (some v) g uses = uses v

set_number-InRange :
    (h : CaddyHandler) (s : Setting) (value : Text → Option ℕ) (put : ℕ → CaddyHandler)
    (args : List Text)
    → InRange h
    → ((v : Text) (n : ℕ) → value v ≡ some n → InRange (put n))
    → InRange (set_number h s value put args).0
unfolding set_number
set_number-InRange h s value put args g puts =
    with_arg-InRange h (λ v. with_value h s put (value v)) (one_arg args) g
      (λ v. with_value-InRange h s put (value v) g (puts v))

add_header-InRange :
    (l : Library) (h : CaddyHandler) (args : List Text)
    → InRange h
    → InRange (add_header l h args).0
unfolding add_header
add_header-InRange l h [] g = g
add_header-InRange l h (f ∷ []) g = g
add_header-InRange l h (f ∷ v ∷ rest) g = g

count_text_small : (v : Text) (n : ℕ) → count_text v ≡ some n → n ≤ largest
unfolding count_text
count_text_small v n e = count_value_small (parse_int v) n (λ k f. parse_int_small v k f) e

depth_text_small : (v : Text) (n : ℕ) → depth_text v ≡ some n → n ≤ 16
unfolding depth_text
depth_text_small v n e = depth_value_small (parse_int v) n (λ k f. parse_int_small v k f) e

configure-InRange :
    (l : Library) (h : CaddyHandler) (s : Setting) (args : List Text)
    → InRange h
    → InRange (configure l h s args).0
unfolding configure
configure-InRange l h sets_cache_dir args g =
    with_arg-InRange h (λ v. (record h { cache_dir = v }, none)) (one_arg args) g (λ v. g)
configure-InRange l h sets_key args g =
    with_arg-InRange h (λ v. (record h { key = v }, none)) (one_arg args) g (λ v. g)
configure-InRange l h sets_max_size args g =
    set_number-InRange h sets_max_size size_text (λ n. record h { cache_max_size = some n }) args g
      (λ v n e. (size_text_small v n e, g.1, g.2, g.3, g.4, g.5, g.6))
configure-InRange l h sets_min_free_space args g =
    set_number-InRange h sets_min_free_space size_text
      (λ n. record h { cache_min_free_space = some n }) args g
      (λ v n e. (g.0, size_text_small v n e, g.2, g.3, g.4, g.5, g.6))
configure-InRange l h sets_chunk_size_limit args g =
    set_number-InRange h sets_chunk_size_limit size_text
      (λ n. record h { chunk_size_limit = some n }) args g
      (λ v n e. (g.0, g.1, g.2, size_text_small v n e, g.4, g.5, g.6))
configure-InRange l h sets_read_ahead args g =
    set_number-InRange h sets_read_ahead size_text (λ n. record h { read_ahead = some n }) args g
      (λ v n e. (g.0, g.1, g.2, g.3, size_text_small v n e, g.5, g.6))
configure-InRange l h sets_buffer_size args g =
    set_number-InRange h sets_buffer_size size_text (λ n. record h { buffer_size = some n }) args g
      (λ v n e. (g.0, g.1, g.2, g.3, g.4, size_text_small v n e, g.6))
configure-InRange l h sets_chunk_size args g =
    set_number-InRange h sets_chunk_size size_text (λ n. record h { chunk_size = some n }) args g
      (λ v n e. g)
configure-InRange l h sets_shard_depth args g =
    set_number-InRange h sets_shard_depth depth_text (λ n. record h { cache_shard_depth = some n })
      args g (λ v n e. (g.0, g.1, depth_text_small v n e, g.3, g.4, g.5, g.6))
configure-InRange l h sets_retries args g =
    set_number-InRange h sets_retries count_text (λ n. record h { low_level_retries = some n }) args
      g (λ v n e. (g.0, g.1, g.2, g.3, g.4, g.5, count_text_small v n e))
configure-InRange l h sets_chunk_streams args g =
    set_number-InRange h sets_chunk_streams count_text (λ n. record h { chunk_streams = some n })
      args g (λ v n e. g)
configure-InRange l h sets_max_age args g =
    set_number-InRange h sets_max_age l.parse_duration (λ n. record h { cache_max_age = some n })
      args g (λ v n e. g)
configure-InRange l h sets_poll_interval args g =
    set_number-InRange h sets_poll_interval l.parse_duration
      (λ n. record h { cache_poll_interval = some n }) args g (λ v n e. g)
configure-InRange l h sets_handle_caching args g =
    set_number-InRange h sets_handle_caching l.parse_duration
      (λ n. record h { handle_caching = some n }) args g (λ v n e. g)
configure-InRange l h header_up args g = add_header-InRange l h args g
configure-InRange l h (another_word w) args g = g

and_then-InRange :
    (a : Configured) (next : CaddyHandler → Configured)
    → InRange a.0
    → ((h : CaddyHandler) → InRange h → InRange (next h).0)
    → InRange (and_then a next).0
unfolding and_then
and_then-InRange (h, some e) next g nexts = g
and_then-InRange (h, none) next g nexts = nexts h g

configure_lines-InRange :
    (l : Library) (h : CaddyHandler) (lines : List (Setting × List Text))
    → InRange h
    → InRange (configure_lines l h lines).0
unfolding configure_lines
configure_lines-InRange l h [] g = g
configure_lines-InRange l h ((s, args) ∷ rest) g =
    and_then-InRange (configure l h s args) (λ h'. configure_lines l h' rest)
      (configure-InRange l h s args g) (λ h' g'. configure_lines-InRange l h' rest g')

set_upstream-InRange :
    (h : CaddyHandler) (args : List Text) → InRange h → InRange (set_upstream h args).0
unfolding set_upstream
set_upstream-InRange h [] g = g
set_upstream-InRange h (u ∷ []) g = g
set_upstream-InRange h (u ∷ v ∷ rest) g = g

unmarshal_caddyfile-InRange :
    (l : Library) (h : CaddyHandler) (segments : List Segment)
    → InRange h
    → InRange (unmarshal_caddyfile l h segments).0
unfolding unmarshal_caddyfile configure_segment
unmarshal_caddyfile-InRange l h [] g = g
unmarshal_caddyfile-InRange l h (seg ∷ rest) g =
    and_then-InRange (configure_segment l h seg) (λ h'. unmarshal_caddyfile l h' rest)
      (and_then-InRange (set_upstream h seg.args) (λ h'. configure_lines l h' seg.lines)
        (set_upstream-InRange h seg.args g) (λ h' g'. configure_lines-InRange l h' seg.lines g'))
      (λ h' g'. unmarshal_caddyfile-InRange l h' rest g')

abbrev pub NotNegative : Option ℕ → Type 0
NotNegative none = Unit {0}
NotNegative (some d) = lt64 d 0 ≡ false

at_least :
    (b limit d : ℕ) (o : Option ℕ)
    → limit < int64_half
    → (b ≡ 0) ⊎ (b ≡ minus_one)
    → lt64 d b ≡ false
    → AtMost limit o
    → lt64 (or_default o d) b ≡ false
unfolding or_default lt64
at_least b limit d none small bs e le = e
at_least b limit d (some n) small (inl f) e le = rw f (ground arith)
at_least b limit d (some n) small (inr f) e le = rw f (ground arith)

not_negative :
    (d : ℕ) (o : Option ℕ) → lt64 d 0 ≡ false → NotNegative o → lt64 (or_default o d) 0 ≡ false
unfolding or_default
not_negative d none e f = e
not_negative d (some n) e f = f

depth_limit : (o : Option ℕ) → AtMost 16 o → lt64 16 (or_default o 1) ≡ false
unfolding or_default lt64
depth_limit none le = refl
depth_limit (some n) le = ground arith

InRange-validate :
    (h : CaddyHandler)
    → InRange h
    → NotNegative h.cache_poll_interval
    → NotNegative h.cache_max_age
    → NotNegative h.handle_caching
    → validate (options_of h) ≡ true
unfolding validate options_of default_options lt64
InRange-validate h g poll age caching =
    rw
      (
        not_negative 60000000000 h.cache_poll_interval refl poll,
        not_negative 3600000000000 h.cache_max_age refl age,
        not_negative 5000000000 h.handle_caching refl caching,
        at_least minus_one largest minus_one h.cache_max_size (omega arith) (inr refl) refl g.0,
        at_least minus_one largest minus_one h.cache_min_free_space (omega arith) (inr refl) refl
            g.1,
        at_least 0 16 1 h.cache_shard_depth (omega arith) (inl refl) refl g.2,
        depth_limit h.cache_shard_depth g.2,
        at_least minus_one largest minus_one h.chunk_size_limit (omega arith) (inr refl) refl g.3,
        at_least 0 largest 0 h.read_ahead (omega arith) (inl refl) refl g.4,
        at_least 0 largest 16777216 h.buffer_size (omega arith) (inl refl) refl g.5,
        at_least 0 largest 10 h.low_level_retries (omega arith) (inl refl) refl g.6,
      )
      refl

new_handler-InRange : InRange new_handler
unfolding new_handler
new_handler-InRange = (tt, tt, tt, tt, tt, tt, tt)

-- Whatever the lines of a Caddyfile are, with an error or without one: if the durations among the settings
-- that were read are not negative, the options that `provision` makes of them pass the cache's check.
pub unmarshal-validate :
    (l : Library) (segments : List Segment)
    → let h = (unmarshal_caddyfile l new_handler segments).0 in
      NotNegative h.cache_poll_interval
      → NotNegative h.cache_max_age
      → NotNegative h.handle_caching
      → validate (options_of h) ≡ true
unmarshal-validate l segments poll age caching =
    InRange-validate (unmarshal_caddyfile l new_handler segments).0
      (unmarshal_caddyfile-InRange l new_handler segments new_handler-InRange) poll age caching
