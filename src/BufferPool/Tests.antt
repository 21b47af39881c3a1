-- ===== src/BufferPool/Tests.antt =====
-- A pool of two buffers of four bytes, and its calls.
use varc.Base.{ℕ, ◌≡◌, refl, arith, true, none, some, [], ◌∷◌}
use varc.BufferPool.{
  Buffer, Pool, not_acquired, allocs, puts, call, get_n, attempt, settle, alloc_loop,
}
use varc.BufferPool.Counts.{IsBalanced, BalancedOr, call-IsBalanced}

abbrev buffer : ℕ → Buffer
buffer i = record { id = i; cap = 4 }

-- One buffer is free and one is in use.
abbrev pool : Pool
pool = record {
  cache = buffer 0 ∷ [];
  min_fill = 1;
  buffer_size = 4;
  pool_size = 2;
  in_use = 1;
  alloced = 2;
  flush_pending = true;
}

pool-IsBalanced : IsBalanced pool
pool-IsBalanced = record { small = omega arith; counted = refl; filled = omega arith }

-- The allocator fails once; then the free buffer and a new one are returned.
get_n_test :
    (get_n pool 2 (not_acquired ∷ allocs (none ∷ []) ∷ allocs (some (buffer 1) ∷ []) ∷ [])).1
    ≡ some (buffer 0 ∷ buffer 1 ∷ [])
unfolding get_n attempt settle alloc_loop
get_n_test = refl

call-IsBalanced_example : BalancedOr (call pool (puts (buffer 1 ∷ [])))
call-IsBalanced_example =
    call-IsBalanced pool (puts (buffer 1 ∷ [])) pool-IsBalanced ((refl, tt), omega arith)
