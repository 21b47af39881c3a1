-- ===== src/Proxy.antt =====
-- proxy/handler.go: the HTTP handler up to `http.ServeContent`, and the reader that this function is
-- given. Keys are numbers, and what the key functions, the source and the cache answer are arguments;
-- positions and sizes are int64.
pub mod Serving
mod Tests
use varc.Base.{
  ℕ, Bool, true, false, not, ◌&&◌, ◌||◌, Option, none, some, List, [], ◌∷◌, length, ◌==◌,
  if◌then◌else◌, add64, lt64, le64,
}

-- The errors that `serveError` tells apart.
pub data OpenError : Type 0 where
  not_found range_not_satisfiable object_changed range_unsupported other_error : OpenError

-- `serveError`: the status.
unfoldable pub serve_error : OpenError → ℕ
serve_error not_found = 404
serve_error range_not_satisfiable = 416
serve_error object_changed = 412
serve_error range_unsupported = 502
serve_error other_error = 502

pub data Method : Type 0 where
  get head : Method
  other_method : ℕ → Method

unfoldable pub is_allowed : Method → Bool
is_allowed get = true
is_allowed head = true
is_allowed (other_method m) = false

-- A step of the handler that can fail.
pub data Outcome {ℓ} (A : Type ℓ) : Type ℓ where
  opened : A → Outcome A
  refused : OpenError → Outcome A

-- `Handler` for one request: whether it is configured, the source key and the cache key (`none` is an
-- error of the key function), the source's `Open` and the cache's `Open`.
pub record Handler (O R : Type 0) : Type 0 where
  pub has_cache : Bool
  pub has_source : Bool
  pub key : Option ℕ
  pub cache_key : ℕ → Option ℕ
  pub source_open : ℕ → Outcome O
  pub cache_open : ℕ → O → Outcome R

pub data Served (R : Type 0) : Type 0 where
  fails_with : ℕ → Served R
  content : R → Served R

module _ {O R : Type 0} (h : Handler O R) where
  unfoldable pub serve_reader : Outcome R → Served R
  serve_reader (refused e) = fails_with (serve_error e)
  serve_reader (opened r) = content r

  unfoldable pub serve_object : ℕ → Outcome O → Served R
  unfolding serve_reader
  serve_object key (refused e) = fails_with (serve_error e)
  serve_object key (opened o) = serve_reader (h.cache_open key o)

  unfoldable pub serve_cached : ℕ → Option ℕ → Served R
  unfolding serve_object
  serve_cached source_key none = fails_with 400
  serve_cached source_key (some key) = serve_object key (h.source_open source_key)

  unfoldable pub serve_key : Option ℕ → Served R
  unfolding serve_cached
  serve_key none = fails_with 400
  serve_key (some key) = serve_cached key (h.cache_key key)

  -- `ServeHTTP`
  unfoldable pub serve : Method → Served R
  serve m =
      if not h.has_cache
      then fails_with 500
      else (if not h.has_source
          then fails_with 500
          else (if not (is_allowed m) then fails_with 405 else serve_key h.key))

-- `readSeeker`; `reading` is the cache reader's ReadAt.
pub record ReadSeeker : Type 0 where
  pub size : ℕ
  pub off : ℕ

pub data SeekError : Type 0 where
  eof invalid_whence negative_offset : SeekError
  read_failed : ℕ → SeekError

unfoldable pub moved :
    ReadSeeker → List ℕ × Option SeekError → ReadSeeker × List ℕ × Option SeekError
moved r (bytes, err) = (record r { off = add64 r.off (length bytes) }, bytes, err)

unfoldable pub rs_read :
    (ℕ → ℕ → List ℕ × Option SeekError) → ReadSeeker → ℕ → ReadSeeker × List ℕ × Option SeekError
unfolding moved
rs_read reading r len = if le64 r.size r.off then (r, [], some eof) else moved r (reading len r.off)

pub data Whence : Type 0 where
  from_start from_current from_end from_elsewhere : Whence

unfoldable pub next_offset : ReadSeeker → ℕ → Whence → Option ℕ
next_offset r offset from_start = some offset
next_offset r offset from_current = some (add64 r.off offset)
next_offset r offset from_end = some (add64 r.size offset)
next_offset r offset from_elsewhere = none

unfoldable pub set_offset : ReadSeeker → Option ℕ → ReadSeeker × ℕ × Option SeekError
set_offset r none = (r, 0, some invalid_whence)
set_offset r (some next) =
    if lt64 next 0 then (r, 0, some negative_offset) else (record r { off = next }, next, none)

unfoldable pub rs_seek : ReadSeeker → ℕ → Whence → ReadSeeker × ℕ × Option SeekError
unfolding next_offset set_offset
rs_seek r offset whence = set_offset r (next_offset r offset whence)
