-- ===== src/Caddy/Provision.antt =====
-- caddy/module.go: `provision`, which puts the configuration over the default options and makes the cache,
-- and the life of the module after it. What Go's library makes of a URL and what the cache's `New` and
-- `Close` answer are arguments.
pub mod Accepts
pub mod Decimals
pub mod Written
mod Tests
use varc.Base.{
  ℕ, zero, suc, Bool, true, false, not, ◌&&◌, ◌||◌, Option, none, some, List, [], ◌∷◌, ◌++◌,
  if◌then◌else◌, ◌==◌,
}
use varc.HttpSource.{Text, same_text, cut_prefix}
use varc.Proxy.{Method, is_allowed}
use varc.Cache.Options.{Options, default_options}
use varc.Caddy.Caddyfile.{CaddyHandler, headers_or_none}

unfoldable pub or_default : Option ℕ → ℕ → ℕ
or_default none d = d
or_default (some n) d = n

-- The options that `provision` gives to the cache.
unfoldable pub options_of : CaddyHandler → Options
unfolding or_default
options_of h =
    let opt = default_options in
    record {
      cache_poll_interval = or_default h.cache_poll_interval opt.cache_poll_interval;
      cache_max_age = or_default h.cache_max_age opt.cache_max_age;
      cache_max_size = or_default h.cache_max_size opt.cache_max_size;
      cache_min_free_space = or_default h.cache_min_free_space opt.cache_min_free_space;
      cache_shard_depth = or_default h.cache_shard_depth opt.cache_shard_depth;
      chunk_size = or_default h.chunk_size opt.chunk_size;
      chunk_size_limit = or_default h.chunk_size_limit opt.chunk_size_limit;
      chunk_streams = or_default h.chunk_streams opt.chunk_streams;
      read_ahead = or_default h.read_ahead opt.read_ahead;
      buffer_size = or_default h.buffer_size opt.buffer_size;
      handle_caching = or_default h.handle_caching opt.handle_caching;
      low_level_retries = or_default h.low_level_retries opt.low_level_retries;
    }

-- What is read of a `url.URL`.
pub record Url : Type 0 where
  pub scheme : Text
  pub host : Text
  pub fragment : Text

pub data ModuleError : Type 0 where
  no_upstream no_cache_dir bad_url bad_scheme no_host has_fragment : ModuleError
  cache_failed not_provisioned : ModuleError

unfoldable pub empty_text : Text → Bool
empty_text [] = true
empty_text (c ∷ t) = false

abbrev pub http : Text
http = 104 ∷ 116 ∷ 116 ∷ 112 ∷ []

abbrev pub https : Text
https = 104 ∷ 116 ∷ 116 ∷ 112 ∷ 115 ∷ []

-- `parseUpstreamURL`: the error.
unfoldable pub check_url : Option Url → Option ModuleError
unfolding empty_text
check_url none = some bad_url
check_url (some u) =
    if not (same_text u.scheme http) && not (same_text u.scheme https)
    then some bad_scheme
    else (if empty_text u.host
        then some no_host
        else (if not (empty_text u.fragment) then some has_fragment else none))

-- `strings.Contains` of one byte.
unfoldable pub contains : ℕ → Text → Bool
contains c [] = false
contains c (d ∷ t) = let rest = contains c t in (d == c) || rest

abbrev pub host_word : Text
host_word = 123 ∷ 104 ∷ 111 ∷ 115 ∷ 116 ∷ 125 ∷ []

abbrev pub host_variable : Text
host_variable =
    123 ∷ 104 ∷ 116 ∷ 116 ∷ 112 ∷ 46 ∷ 114 ∷ 101 ∷ 113 ∷ 117 ∷ 101 ∷ 115 ∷ 116 ∷ 46 ∷ 104 ∷ 111
    ∷ 115 ∷ 116 ∷ 125 ∷ []

abbrev pub uri_word : Text
uri_word = 123 ∷ 117 ∷ 114 ∷ 105 ∷ 125 ∷ []

abbrev pub uri_variable : Text
uri_variable =
    123 ∷ 104 ∷ 116 ∷ 116 ∷ 112 ∷ 46 ∷ 114 ∷ 101 ∷ 113 ∷ 117 ∷ 101 ∷ 115 ∷ 116 ∷ 46 ∷ 117 ∷ 114
    ∷ 105 ∷ 125 ∷ []

unfoldable pub is_set {ℓ} : {A : Type ℓ} → Option A → Bool
is_set none = false
is_set (some a) = true

unfoldable pub starts_with : Text → Text → Bool
unfolding is_set
starts_with word t = is_set (cut_prefix word t)

-- The replacement of `normalizeCacheKeyTemplate`: `skip` bytes belong to a replaced word.
unfoldable pub replace_from : ℕ → Text → Text
unfolding starts_with
replace_from skip [] = []
replace_from (suc skip) (c ∷ t) = replace_from skip t
replace_from zero (c ∷ t) =
    let after_host = replace_from 5 t in
    let after_uri = replace_from 4 t in
    let rest = replace_from 0 t in
    if starts_with host_word (c ∷ t)
    then host_variable ++ after_host
    else (if starts_with uri_word (c ∷ t) then uri_variable ++ after_uri else c ∷ rest)

unfoldable pub normalize_template : Text → Text
unfolding replace_from
normalize_template template = replace_from 0 template

-- `CacheKey` of the proxy's handler: its default, the path of the resolved upstream, or a template.
pub data CacheKeyRule : Type 0 where
  request_path resolved_path : CacheKeyRule
  template : Text → CacheKeyRule

unfoldable pub key_rule : Bool → Text → CacheKeyRule
unfolding empty_text normalize_template
key_rule dynamic key =
    if not (empty_text key)
    then template (normalize_template key)
    else (if dynamic then resolved_path else request_path)

-- The proxy's handler and its source.
pub record ProxyHandler : Type 0 where
  pub dynamic_upstream : Bool
  pub headers : List (Text × Text)
  -- Whether the source sends no Host of its own.
  pub keeps_host : Bool
  pub cache_key : CacheKeyRule

abbrev pub host_header : Text
host_header = 72 ∷ 111 ∷ 115 ∷ 116 ∷ []

unfoldable pub has_field : Text → List (Text × Text) → Bool
has_field name [] = false
has_field name ((field, value) ∷ rest) =
    let later = has_field name rest in same_text field name || later

unfoldable pub proxy_handler : CaddyHandler → ProxyHandler
unfolding contains key_rule has_field headers_or_none
proxy_handler h =
    let dynamic = contains 123 h.upstream in
    record {
      dynamic_upstream = dynamic;
      headers = headers_or_none h.headers;
      keeps_host = dynamic && not (has_field host_header (headers_or_none h.headers));
      cache_key = key_rule dynamic h.key;
    }

-- The module with its cache, a `C`.
pub record Module (C : Type 0) : Type 0 where
  pub config : CaddyHandler
  pub cache : Option C
  pub handler : Option ProxyHandler

module _ {C : Type 0} (parse_url : Text → Option Url) (new_cache : Text → Options → Option C) where
  unfoldable pub with_cache : Module C → Option C → Module C × Option ModuleError
  unfolding proxy_handler
  with_cache m none = (m, some cache_failed)
  with_cache m (some c) =
      (record m { cache = some c; handler = some (proxy_handler m.config) }, none)

  unfoldable pub with_upstream : Module C → Option ModuleError → Module C × Option ModuleError
  unfolding with_cache options_of
  with_upstream m (some e) = (m, some e)
  with_upstream m none = with_cache m (new_cache m.config.cache_dir (options_of m.config))

  -- `provision`
  unfoldable pub provision : Module C → Module C × Option ModuleError
  unfolding with_upstream check_url empty_text contains
  provision m =
      if empty_text m.config.upstream
      then (m, some no_upstream)
      else (if empty_text m.config.cache_dir
          then (m, some no_cache_dir)
          else with_upstream m (
              if contains 123 m.config.upstream
              then none
              else check_url (parse_url m.config.upstream)))

module _ {C : Type 0} (close_cache : C → Bool) where
  -- `Cleanup`: whether the cache closes with an error.
  unfoldable pub closed : Module C → Option C → Module C × Bool
  closed m none = (m, false)
  closed m (some c) = (record m { cache = none; handler = none }, close_cache c)

  unfoldable pub cleanup : Module C → Module C × Bool
  unfolding closed
  cleanup m = closed m m.cache

pub data CaddyServed : Type 0 where
  passed_on : CaddyServed
  fails : ModuleError → CaddyServed
  served_by : ProxyHandler → CaddyServed

unfoldable pub serve_by : Option ProxyHandler → CaddyServed
serve_by none = fails not_provisioned
serve_by (some p) = served_by p

module _ {C : Type 0} where
  -- `Validate`
  unfoldable pub validate_module : Module C → Option ModuleError
  unfolding is_set
  validate_module m =
      if not (is_set m.cache) || not (is_set m.handler) then some not_provisioned else none

  -- `ServeHTTP`
  unfoldable pub serve_http : Module C → Method → CaddyServed
  unfolding serve_by
  serve_http m method = if not (is_allowed method) then passed_on else serve_by m.handler
