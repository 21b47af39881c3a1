-- ===== src/Cache/Options.antt =====
-- cache/options.go: the options of the cache. Sizes and durations are int64, durations in nanoseconds.
use varc.Base.{ℕ, Bool, not, ◌||◌, lt64, minus_one}

pub record Options : Type 0 where
  pub cache_poll_interval : ℕ
  pub cache_max_age : ℕ
  pub cache_max_size : ℕ
  pub cache_min_free_space : ℕ
  pub cache_shard_depth : ℕ
  pub chunk_size : ℕ
  pub chunk_size_limit : ℕ
  pub chunk_streams : ℕ
  pub read_ahead : ℕ
  pub buffer_size : ℕ
  pub handle_caching : ℕ
  pub low_level_retries : ℕ

-- `DefaultOptions`
unfoldable pub default_options : Options
default_options = record {
  cache_poll_interval = 60000000000;
  cache_max_age = 3600000000000;
  cache_max_size = minus_one;
  cache_min_free_space = minus_one;
  cache_shard_depth = 1;
  chunk_size = 134217728;
  chunk_size_limit = minus_one;
  chunk_streams = 0;
  read_ahead = 0;
  buffer_size = 16777216;
  handle_caching = 5000000000;
  low_level_retries = 10;
}

-- `validate`: whether there is no error.
unfoldable pub validate : Options → Bool
validate opt = not (
    lt64 opt.cache_poll_interval 0
    || lt64 opt.cache_max_age 0
    || lt64 opt.cache_max_size minus_one
    || lt64 opt.cache_min_free_space minus_one
    || lt64 opt.cache_shard_depth 0
    || lt64 16 opt.cache_shard_depth
    || lt64 opt.chunk_size_limit minus_one
    || lt64 opt.read_ahead 0
    || lt64 opt.buffer_size 0
    || lt64 opt.handle_caching 0
    || lt64 opt.low_level_retries 0)
