-- ===== src/BufferPool/Counts.antt =====
-- The counters of the pool (internal/engine/bufferpool/pool.go).
use varc.Base.{
  ℕ, zero, suc, ◌+◌, ◌-◌, ◌<◌, ◌≤◌, ◌≡◌, refl, arith, subst, inl, inr, Bool, true, false, Option,
  none, some, List, [], ◌∷◌, ◌++◌, length, length-append, length-take, length-drop, take, drop, min,
  ltb, ◌==◌, add64, sub64, int64_mod, int64_half, Bool-cases, Option-cases, ◌%◌,
}
use varc.BufferPool.{
  Buffer, Pool, Attempt, not_acquired, allocs, free_buffer, flush_loop, flush, flush_all,
  kick_flusher, flush_aged, update_min_fill, put_one, put_loop, put_n, alloc_loop, settle, attempt,
  get_n, PoolCall, gets, puts, flushes, aged, call,
}

-- `alloced` counts the buffers in use and those in the cache, modulo 2 ^ 64, and the cache is at
-- least as long as `minFill`.
pub record IsBalanced (p : Pool) : Type 0 where
  pub small : p.alloced < int64_mod
  pub counted : p.alloced ≡ (p.in_use + length p.cache) % int64_mod
  pub filled : p.min_fill ≤ length p.cache

abbrev pub BalancedOr : Option Pool → Type 0
BalancedOr none = ⊥
BalancedOr (some p) = IsBalanced p

update_min_fill-IsBalanced :
    (p : Pool)
    → p.alloced < int64_mod
    → p.alloced ≡ (p.in_use + length p.cache) % int64_mod
    → IsBalanced (update_min_fill p)
unfolding update_min_fill
update_min_fill-IsBalanced p s c = elim (Bool-cases (ltb (length p.cache) p.min_fill)) [
  | inl e ↦ rw e (record { small = s; counted = c; filled = omega arith })
  | inr e ↦ rw e (record { small = s; counted = c; filled = ground arith })
]

sub64_bound : (a b : ℕ) → sub64 a b < int64_mod
unfolding sub64
sub64_bound a b = omega arith

one_freed :
    (a u k m : ℕ)
    → a < int64_mod
    → k ≡ m - 1
    → 0 < m
    → a ≡ (u + m) % int64_mod
    → sub64 a 1 ≡ (u + k) % int64_mod
unfolding sub64
one_freed a u k m s e pos c = omega arith

-- A new buffer that goes to the cache, or into use.
some_allocated :
    (a u k m d : ℕ) → m ≡ k + d → a ≡ (u + k) % int64_mod → add64 a d ≡ (u + m) % int64_mod
unfolding add64
some_allocated a u k m d e c = omega arith

taken_out :
    (a u k m n d : ℕ)
    → n + m ≡ k + d
    → a ≡ (u + k) % int64_mod
    → add64 a d ≡ (add64 u n + m) % int64_mod
unfolding add64
taken_out a u k m n d e c = omega arith

put_back :
    (a u k n : ℕ)
    → a < int64_mod
    → n < int64_half
    → (a + n) % int64_mod ≡ (u + k) % int64_mod
    → a ≡ (sub64 u n + k) % int64_mod
unfolding sub64
put_back a u k n s small c = omega arith

add64_bound : (a b : ℕ) → add64 a b < int64_mod
unfolding add64
add64_bound a b = omega arith

alloc_loop-length :
    (want : ℕ) (answers : List (Option Buffer))
    → (alloc_loop want answers).1 ≡ true
    → length (alloc_loop want answers).0 ≡ want
unfolding alloc_loop
alloc_loop-length zero answers e = refl
alloc_loop-length (suc want) [] e = cc
alloc_loop-length (suc want) (none ∷ answers) e = cc
alloc_loop-length (suc want) (some buf ∷ answers) e =
    omega (arith, alloc_loop-length want answers e)

flush_loop-counted :
    (n : ℕ) (p : Pool)
    → p.alloced < int64_mod
    → p.alloced ≡ (p.in_use + length p.cache) % int64_mod
    → n ≤ length p.cache
    → BalancedOr (elim (flush_loop n p) [
      | none ↦ none
      | some q ↦ some (record q { min_fill = length q.cache })
    ])
unfolding flush_loop free_buffer
flush_loop-counted zero p s c le = record { small = s; counted = c; filled = omega arith }
flush_loop-counted (suc n) p s c le =
    let l : length (take (length p.cache - 1) p.cache) ≡ length p.cache - 1 =
      length-take (length p.cache - 1) p.cache (omega arith) in
    let some_left : (length p.cache == 0) ≡ false = ground arith in
    rw some_left (
      flush_loop-counted n (free_buffer (record p { cache = take (length p.cache - 1) p.cache }))
        (sub64_bound p.alloced 1)
        (one_freed p.alloced p.in_use (length (take (length p.cache - 1) p.cache)) (length p.cache)
          s l (omega arith) c)
        (omega (arith, l)))

flush-IsBalanced : (n : ℕ) (p : Pool) → n ≤ length p.cache → IsBalanced p → BalancedOr (flush n p)
unfolding flush
flush-IsBalanced n p le b = flush_loop-counted n p b.small b.counted le

kick_flusher-IsBalanced : (p : Pool) → IsBalanced p → IsBalanced (kick_flusher p)
unfolding kick_flusher
kick_flusher-IsBalanced p b = elim (Bool-cases p.flush_pending) [
  | inl e ↦ simp e b
  | inr e ↦ simp e (record { small = b.small; counted = b.counted; filled = b.filled })
]

flush_aged-IsBalanced : (p : Pool) → IsBalanced p → BalancedOr (flush_aged p)
unfolding flush_aged
flush_aged-IsBalanced p b =
    let p' : Pool = record p { flush_pending = false } in
    let r : BalancedOr (flush p.min_fill p') =
      flush-IsBalanced p.min_fill p' b.filled
        (record { small = b.small; counted = b.counted; filled = b.filled }) in
    elim (Option-cases (flush p.min_fill p')) [
      | inl n ↦ absurd (subst BalancedOr n r)
      | inr (q, n) ↦
          let ok : IsBalanced q = subst BalancedOr n r in
          rw (n, flush_aged)
            (elim (Bool-cases (length q.cache == 0)) [
              | inl e ↦ rw e ok
              | inr e ↦ rw e (kick_flusher-IsBalanced q ok)
            ])
    ]

settle-IsBalanced :
    (p : Pool) (i n : ℕ) (r : List Buffer × Bool)
    → IsBalanced p
    → (have : ℕ) → i ≡ length p.cache - have
    → have ≤ length p.cache
    → have ≤ n
    → (r.1 ≡ true → length r.0 ≡ n - have)
    → IsBalanced (settle (record p { cache = take i p.cache }) n (drop i p.cache) r).0
unfolding settle
settle-IsBalanced p i n (new, true) b have e le le' full =
    update_min_fill-IsBalanced _ (add64_bound p.alloced (length new)) (
      taken_out p.alloced p.in_use (length p.cache) (length (take i p.cache)) n (length new)
        (omega (arith, length-take i p.cache (omega arith), full refl)) b.counted)
settle-IsBalanced p i n (new, false) b have e le le' full =
    let all : length (take i p.cache ++ (drop i p.cache ++ new)) ≡ length p.cache + length new =
      omega (
        arith,
        length-append (take i p.cache) (drop i p.cache ++ new),
        length-append (drop i p.cache) new,
        length-take i p.cache (omega arith),
        length-drop i p.cache,
      ) in
    record {
      small = add64_bound p.alloced (length new);
      counted = some_allocated p.alloced p.in_use (length p.cache) _ (length new) all b.counted;
      filled = omega (arith, all, b.filled);
    }

attempt-IsBalanced : (p : Pool) (n : ℕ) (a : Attempt) → IsBalanced p → IsBalanced (attempt p n a).0
unfolding attempt
attempt-IsBalanced p n not_acquired b = b
attempt-IsBalanced p n (allocs answers) b =
    let have = min (length p.cache) n in
    settle-IsBalanced p (length p.cache - have) n (alloc_loop (n - have) answers) b have refl
      (omega arith) (omega arith) (alloc_loop-length (n - have) answers)

get_n-IsBalanced :
    (p : Pool) (n : ℕ) (rounds : List Attempt) → IsBalanced p → IsBalanced (get_n p n rounds).0
unfolding get_n
get_n-IsBalanced p n [] b = b
get_n-IsBalanced p n (a ∷ rest) b =
    let now : IsBalanced (attempt p n a).0 = attempt-IsBalanced p n a b in
    elim (Option-cases (attempt p n a).1) [
      | inl e ↦ rw (e, get_n) (get_n-IsBalanced (attempt p n a).0 n rest now)
      | inr (bufs, e) ↦ rw (e, get_n) now
    ]

-- All buffers have the pool's size, and there are not more of them than an int64 counts.
abbrev pub AreSized : ℕ → List Buffer → Type 0
AreSized size [] = Unit {0}
AreSized size (buf ∷ bufs) = (buf.cap ≡ size) × AreSized size bufs

-- The pool after `k` of the buffers in a `PutN`.
record IsOwed (u size k : ℕ) (p : Pool) : Type 0 where
  small : p.alloced < int64_mod
  used : p.in_use ≡ u
  sized : p.buffer_size ≡ size
  owed : (p.alloced + k) % int64_mod ≡ (u + length p.cache) % int64_mod

abbrev OwedOr : ℕ → ℕ → ℕ → Option Pool → Type 0
OwedOr u size k none = ⊥
OwedOr u size k (some p) = IsOwed u size k p

owed_freed :
    (a k v : ℕ)
    → a < int64_mod
    → (a + k) % int64_mod ≡ v % int64_mod
    → (sub64 a 1 + suc k) % int64_mod ≡ v % int64_mod
unfolding sub64
owed_freed a k v s e = omega arith

put_one-OwedOr :
    (u size k : ℕ) (p : Pool) (buf : Buffer)
    → IsOwed u size k p
    → buf.cap ≡ size
    → OwedOr u size (suc k) (put_one p buf)
unfolding put_one free_buffer
put_one-OwedOr u size k p buf o e =
    let fits : (buf.cap == p.buffer_size) ≡ true = ground (arith, e, o.sized) in
    rw fits (elim (Bool-cases (ltb (length p.cache) p.pool_size)) [
      | inl room ↦ rw room (record {
        small = o.small;
        used = o.used;
        sized = o.sized;
        owed = omega (arith, o.owed, length-append p.cache (buf ∷ []));
      })
      | inr full ↦ rw full (record {
        small = sub64_bound p.alloced 1;
        used = o.used;
        sized = o.sized;
        owed = owed_freed p.alloced k (u + length p.cache) o.small o.owed;
      })
    ])

put_loop-OwedOr :
    (u size k : ℕ) (p : Option Pool) (bufs : List Buffer)
    → OwedOr u size k p
    → AreSized size bufs
    → OwedOr u size (k + length bufs) (put_loop p bufs)
unfolding put_loop
put_loop-OwedOr u size k none bufs o a = elim o [ ]
put_loop-OwedOr u size k (some p) [] o a =
    let e : k ≡ k + 0 = omega arith in subst (λ j. IsOwed u size j p) e o
put_loop-OwedOr u size k (some p) (buf ∷ bufs) o a =
    let e : suc k + length bufs ≡ k + suc (length bufs) = omega arith in
    subst (λ j. OwedOr u size j (put_loop (put_one p buf) bufs)) e
      (put_loop-OwedOr u size (suc k) (put_one p buf) bufs (put_one-OwedOr u size k p buf o a.0)
        a.1)

put_n-IsBalanced :
    (p : Pool) (bufs : List Buffer)
    → IsBalanced p
    → AreSized p.buffer_size bufs
    → length bufs < int64_half
    → BalancedOr (put_n p bufs)
unfolding put_n
put_n-IsBalanced p bufs b sized small =
    let r : OwedOr p.in_use p.buffer_size (length bufs) (put_loop (some p) bufs) =
      let none_yet : 0 + length bufs ≡ length bufs = omega arith in
      subst (λ j. OwedOr p.in_use p.buffer_size j (put_loop (some p) bufs)) none_yet
        (put_loop-OwedOr p.in_use p.buffer_size 0 (some p) bufs
          (record { small = b.small; used = refl; sized = refl; owed = omega (arith, b.counted) })
          sized) in
    elim (Option-cases (put_loop (some p) bufs)) [
      | inl n ↦ absurd (subst (OwedOr p.in_use p.buffer_size (length bufs)) n r)
      | inr (q, n) ↦
          let o : IsOwed p.in_use p.buffer_size (length bufs) q =
            subst (OwedOr p.in_use p.buffer_size (length bufs)) n r in
          rw (n, put_n)
            (kick_flusher-IsBalanced _ (
              update_min_fill-IsBalanced _ o.small (
                put_back q.alloced q.in_use (length q.cache) (length bufs) o.small small
                  (omega (arith, o.owed, o.used)))))
    ]

-- What a caller owes the pool: buffers of its size, and not more than an int64 counts.
abbrev pub IsCall : Pool → PoolCall → Type 0
IsCall p (gets n rounds) = Unit {0}
IsCall p (puts bufs) = AreSized p.buffer_size bufs × (length bufs < int64_half)
IsCall p flushes = Unit {0}
IsCall p aged = Unit {0}

-- No call on a balanced pool panics, whatever the semaphore and the allocator answer, if the buffers
-- that are put back have the pool's size; and each leaves it balanced: `alloced` counts the buffers
-- in use and in the cache modulo 2 ^ 64, and `minFill` is at most the length of the cache.
pub call-IsBalanced : (p : Pool) (c : PoolCall) → IsBalanced p → IsCall p c → BalancedOr (call p c)
unfolding call flush_all
call-IsBalanced p (gets n rounds) b ok = get_n-IsBalanced p n rounds b
call-IsBalanced p (puts bufs) b ok = put_n-IsBalanced p bufs b ok.0 ok.1
call-IsBalanced p flushes b ok = flush-IsBalanced (length p.cache) p (omega arith) b
call-IsBalanced p aged b ok = flush_aged-IsBalanced p b
