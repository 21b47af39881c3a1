-- ===== src/Scheduler.antt =====
-- internal/engine/scheduler/scheduler.go: which range fetches run for a sparse file, and who waits
-- for them. Offsets are int64 (Base/Int64.antt). Each function is one critical section under
-- `dls.mu`; a send on a waiter's channel is an entry of `answers`.
pub mod Item
pub mod Waiters
pub mod Fetch
pub mod Run
pub mod Serving
pub mod Answers
pub mod Stopping
pub mod Closing
mod Tests
use varc.Base.{
  ℕ, suc, ◌+◌, ◌*◌, ◌≡◌, ◌⊎◌, Bool, true, false, not, ◌&&◌, ◌||◌, Option, none, some, List, [], ◌∷◌,
  ◌++◌, length, ◌==◌, ltb, leb, if◌then◌else◌, add64, lt64, le64,
}
use varc.Ranges.{Range, end, is_empty, clip}
use Item.{ItemView}

-- The errors that the scheduler tells apart: `ioerrors.IsNoSpace` holds of the first alone.
pub data Error : Type 0 where
  no_space stream_abandoned unknown_size invalid_seek : Error
  failed : ℕ → Error

unfoldable pub is_no_space : Option Error → Bool
is_no_space (some no_space) = true
is_no_space _ = false

abbrev pub min_window : ℕ
min_window = 1024 * 1024

abbrev pub max_skip_bytes : ℕ
max_skip_bytes = 1024 * 1024

abbrev pub max_error_count : ℕ
max_error_count = 10

-- The fields of `downloader` that decide what it does; `buffered` is `dl.in.HasBuffer()`, `kick`
-- a pending kick, and `quits` how often the channel `quit` was closed.
pub record Downloader : Type 0 where
  pub start : ℕ
  pub offset : ℕ
  pub max_offset : ℕ
  pub skipped : ℕ
  pub closed : Bool
  pub stop : Bool
  pub buffered : Bool
  pub kick : Bool
  pub quits : ℕ

pub record Waiter : Type 0 where
  pub id : ℕ
  pub r : Range

-- What does not change: `src.Size()`, `opt.ReadAhead`, and `BufferSize` of the context.
pub record Env : Type 0 where
  pub src_size : ℕ
  pub read_ahead : ℕ
  pub buffer_size : ℕ

-- `next_id` numbers the channels that `Download` makes.
pub record Downloaders : Type 0 where
  pub dls : List Downloader
  pub waiters : List Waiter
  pub error_count : ℕ
  pub last_err : Option Error
  pub next_id : ℕ
  pub answers : List (ℕ × Option Error)

-- `_countErrors(n, err)`
unfoldable pub count_errors : Downloaders → ℕ → Option Error → Downloaders
count_errors d n none =
    if n == 0
    then d
    else (if d.error_count == 0 then d else record d { error_count = 0; last_err = none })
count_errors d n (some e) = record d { error_count = d.error_count + 1; last_err = some e }

-- `_removeClosed`, on the list.
unfoldable pub remove_closed : List Downloader → List Downloader
remove_closed [] = []
remove_closed (dl ∷ rest) = if dl.closed then remove_closed rest else dl ∷ remove_closed rest

-- `setRange`
unfoldable pub set_range : Downloader → Range → Downloader
set_range dl r =
    if lt64 dl.max_offset (end r)
    then record dl { max_offset = end r; kick = true }
    else record dl { kick = true }

-- The test of the loop in `_ensureDownloader`.
unfoldable pub serves : ℕ → Range → Downloader → Bool
serves window r dl = le64 dl.start r.pos && lt64 r.pos (add64 dl.offset window)

-- The loop: the first downloader that serves `r` has its range extended.
unfoldable pub reuse : ℕ → Range → List Downloader → Option (List Downloader)
reuse window r [] = none
reuse window r (dl ∷ rest) =
    if serves window r dl
    then some (set_range dl r ∷ rest)
    else elim (reuse window r rest) [ none ↦ none | some rest' ↦ some (dl ∷ rest') ]

-- `open`, as far as it fails: an unknown size, or a seek outside the object.
unfoldable pub open_error : Env → ℕ → Option Error
open_error env offset =
    if lt64 env.src_size 0
    then some unknown_size
    else (if lt64 offset 0 || le64 env.src_size offset then some invalid_seek else none)

-- The count of buffers in `newDownloadInput`: the input is buffered if it is not 0.
unfoldable pub input_buffered : Env → Bool
input_buffered env =
    let per : ℕ = 1024 * 1024 in
    if le64 env.buffer_size env.src_size then leb per env.buffer_size else leb per env.src_size

-- The downloader that `_newDownloader` makes.
unfoldable pub fresh_downloader : Env → Range → Downloader
fresh_downloader env r = record {
  start = r.pos;
  offset = r.pos;
  max_offset = end r;
  skipped = 0;
  closed = false;
  stop = false;
  buffered = input_buffered env;
  kick = false;
  quits = 0;
}

-- The range with `ReadAhead` added.
unfoldable pub with_read_ahead : Env → Range → Range
with_read_ahead env r =
    if lt64 0 env.read_ahead then record r { size = add64 r.size env.read_ahead } else r

-- The range that `_ensureDownloader` looks for, and whether it may start a downloader for it.
unfoldable pub wanted : Env → ItemView → Range → Bool × Range
wanted env item r =
    let missing = item.find_missing (with_read_ahead env r) in
    let window : Range = record missing { size = add64 missing.size env.buffer_size } in
    let clipped = item.find_missing window in
    if is_empty missing
    then (if is_empty clipped
        then (false, record { pos = end window; size = 0 })
        else (true, record { pos = clipped.pos; size = 0 }))
    else (true, missing)

-- `_newDownloader` and what `_ensureDownloader` does with its error.
unfoldable pub start_downloader : Env → Downloaders → Range → Downloaders × Option Error
start_downloader env d r = elim (open_error env r.pos) [
  | none ↦ (record d { dls = d.dls ++ fresh_downloader env r ∷ [] }, none)
  | some e ↦ (count_errors d 0 (some e), some e)
]

abbrev pub window_of : Env → ℕ
window_of env = if lt64 env.buffer_size min_window then min_window else env.buffer_size

-- `_ensureDownloader` once the range is known.
unfoldable pub ensure_wanted : Env → Downloaders → Bool × Range → Downloaders × Option Error
ensure_wanted env d (start_new, r) =
    let open_dls = remove_closed d.dls in
    let d' : Downloaders = record d { dls = open_dls } in
    elim (reuse (window_of env) r open_dls) [
      | some dls ↦ (record d { dls = dls }, none)
      | none ↦ if not start_new || (r.size == 0) then (d', none) else start_downloader env d' r
    ]

-- `_ensureDownloader`
unfoldable pub ensure_downloader : Env → ItemView → Downloaders → Range → Downloaders × Option Error
ensure_downloader env item d r = ensure_wanted env d (wanted env item r)

-- The results of `Download`: an error at once, or the number of the waiter that it became.
pub data Downloading : Type 0 where
  refused : Error → Downloading
  waiting : ℕ → Downloading

-- `Download`, up to the receive from its channel.
unfoldable pub download : Env → ItemView → Downloaders → Range → Downloaders × Downloading
download env item d r =
    let (d', err) = ensure_downloader env item d r in
    elim err [
      | some e ↦ (d', refused e)
      | none ↦ (
        record d' {
          waiters = d'.waiters ++ record { id = d'.next_id; r = r } ∷ [];
          next_id = d'.next_id + 1;
        },
        waiting d'.next_id,
      )
    ]
