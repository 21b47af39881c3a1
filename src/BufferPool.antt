-- ===== src/BufferPool.antt =====
-- internal/engine/bufferpool/pool.go: the pool of buffers. `int` counters are int64. What `alloc` and
-- the semaphore answer is an argument; each function is one critical section under `bp.mu`.
pub mod Counts
mod Tests
use varc.Base.{
  ℕ, zero, suc, ◌+◌, ◌-◌, Bool, true, false, Option, none, some, List, [], ◌∷◌, ◌++◌, length, take,
  drop, min, ltb, ◌==◌, if◌then◌else◌, add64, sub64,
}

-- A buffer, by an identity, with its capacity.
pub record Buffer : Type 0 where
  pub id : ℕ
  pub cap : ℕ

pub record Pool : Type 0 where
  pub cache : List Buffer
  pub min_fill : ℕ
  pub buffer_size : ℕ
  pub pool_size : ℕ
  pub in_use : ℕ
  pub alloced : ℕ
  pub flush_pending : Bool

-- One round of the loop of `GetN`: `acquire` fails, or `alloc` answers as listed.
pub data Attempt : Type 0 where
  not_acquired : Attempt
  allocs : List (Option Buffer) → Attempt

unfoldable pub new_pool : ℕ → ℕ → Pool
new_pool buffer_size pool_size = record {
  cache = [];
  min_fill = 0;
  buffer_size = buffer_size;
  pool_size = pool_size;
  in_use = 0;
  alloced = 0;
  flush_pending = false;
}

-- `freeBuffer`, as far as the pool is concerned.
unfoldable pub free_buffer : Pool → Pool
free_buffer p = record p { alloced = sub64 p.alloced 1 }

-- The loop of `flush`, whose `get` takes the last buffer; `none` is the panic on an empty cache.
unfoldable pub flush_loop : ℕ → Pool → Option Pool
unfolding free_buffer
flush_loop zero p = some p
flush_loop (suc n) p =
    let rest =
      flush_loop n (free_buffer (record p { cache = take (length p.cache - 1) p.cache })) in
    if length p.cache == 0 then none else rest

-- `flush`
unfoldable pub flush : ℕ → Pool → Option Pool
flush n p = elim (flush_loop n p) [
  | none ↦ none
  | some q ↦ some (record q { min_fill = length q.cache })
]

-- `Flush`
unfoldable pub flush_all : Pool → Option Pool
flush_all p = flush (length p.cache) p

-- `flushAged`, and `kickFlusher` where buffers are left.
unfoldable pub kick_flusher : Pool → Pool
kick_flusher p = if p.flush_pending then p else record p { flush_pending = true }

unfoldable pub flush_aged : Pool → Option Pool
flush_aged p = elim (flush p.min_fill (record p { flush_pending = false })) [
  | none ↦ none
  | some q ↦ some (if length q.cache == 0 then q else kick_flusher q)
]

unfoldable pub update_min_fill : Pool → Pool
update_min_fill p =
    if ltb (length p.cache) p.min_fill then record p { min_fill = length p.cache } else p

-- `_put`; `none` is its panic.
unfoldable pub put_one : Pool → Buffer → Option Pool
unfolding free_buffer
put_one p buf =
    if buf.cap == p.buffer_size
    then some (
        if ltb (length p.cache) p.pool_size
        then record p { cache = p.cache ++ buf ∷ [] }
        else free_buffer p)
    else none

unfoldable pub put_loop : Option Pool → List Buffer → Option Pool
put_loop none bufs = none
put_loop (some p) [] = some p
put_loop (some p) (buf ∷ bufs) = put_loop (put_one p buf) bufs

-- `PutN`; `Put` is `PutN` of one buffer.
unfoldable pub put_n : Pool → List Buffer → Option Pool
put_n p bufs = elim (put_loop (some p) bufs) [
  | none ↦ none
  | some q ↦
      some (kick_flusher (update_min_fill (record q { in_use = sub64 q.in_use (length bufs) })))
]

-- The buffers that are allocated before the first failure, `want` at most, and whether all were.
unfoldable pub alloc_loop : ℕ → List (Option Buffer) → List Buffer × Bool
alloc_loop zero answers = ([], true)
alloc_loop (suc want) [] = ([], false)
alloc_loop (suc want) (none ∷ answers) = ([], false)
alloc_loop (suc want) (some buf ∷ answers) =
    let rest = alloc_loop want answers in (buf ∷ rest.0, rest.1)

-- A round of `GetN` after the allocations: all buffers are returned, or all go to the cache.
unfoldable pub settle : Pool → ℕ → List Buffer → List Buffer × Bool → Pool × Option (List Buffer)
settle p n bufs (new, true) =
    let counted : Pool = record p { alloced = add64 p.alloced (length new) } in
    (update_min_fill (record counted { in_use = add64 counted.in_use n }), some (bufs ++ new))
settle p n bufs (new, false) =
    (record p { cache = p.cache ++ (bufs ++ new); alloced = add64 p.alloced (length new) }, none)

unfoldable pub attempt : Pool → ℕ → Attempt → Pool × Option (List Buffer)
attempt p n not_acquired = (p, none)
attempt p n (allocs answers) =
    let have = min (length p.cache) n in
    let i = length p.cache - have in
    settle (record p { cache = take i p.cache }) n (drop i p.cache) (alloc_loop (n - have) answers)

-- `GetN` after the given rounds: the buffers, or `none` while it goes on trying.
unfoldable pub get_n : Pool → ℕ → List Attempt → Pool × Option (List Buffer)
get_n p n [] = (p, none)
get_n p n (a ∷ rest) =
    let later = get_n (attempt p n a).0 n rest in
    elim (attempt p n a).1 [ none ↦ later | some bufs ↦ ((attempt p n a).0, some bufs) ]

pub data PoolCall : Type 0 where
  gets : ℕ → List Attempt → PoolCall
  puts : List Buffer → PoolCall
  flushes aged : PoolCall

-- A call on the pool; `none` is a panic.
unfoldable pub call : Pool → PoolCall → Option Pool
call p (gets n rounds) = some (get_n p n rounds).0
call p (puts bufs) = put_n p bufs
call p flushes = flush_all p
call p aged = flush_aged p
