-- ===== src/Proxy/Serving.antt =====
-- What the handler serves (proxy/handler.go).
use varc.Base.{ℕ, ◌≡◌, ◌≢◌, ◌⊎◌, inl, inr, refl, true, false, Option, none, some, Bool-cases}
use varc.Proxy.{
  OpenError, not_found, range_not_satisfiable, object_changed, range_unsupported, other_error,
  serve_error, Method, get, head, other_method, is_allowed, Outcome, opened, refused, Handler,
  Served, fails_with, content, serve_reader, serve_object, serve_cached, serve_key, serve,
}

-- The HTTP status for an error of an open (RFC 9110): not found, range not satisfiable, precondition
-- failed, or bad gateway for what the origin cannot do.
abbrev pub IsStatusOf : OpenError → ℕ → Type 0
IsStatusOf not_found status = status ≡ 404
IsStatusOf range_not_satisfiable status = status ≡ 416
IsStatusOf object_changed status = status ≡ 412
IsStatusOf range_unsupported status = status ≡ 502
IsStatusOf other_error status = status ≡ 502

abbrev pub IsReading : Method → Type 0
IsReading m = (m ≡ get) ⊎ (m ≡ head)

module _ {O R : Type 0} (h : Handler O R) where
  -- The object of the request's source key is opened, and the request has a cache key.
  abbrev Found : ℕ → O → Type 0
  Found c o = (k : ℕ) × (h.key ≡ some k) × (h.cache_key k ≡ some c) × (h.source_open k ≡ opened o)

  -- A request that has both keys fails with `e` at the source or at the cache.
  abbrev Refuses : OpenError → Type 0
  Refuses e =
      ((k : ℕ) × (c : ℕ) × (h.key ≡ some k)
        × (h.cache_key k ≡ some c)
        × (h.source_open k ≡ refused e))
      ⊎ ((c : ℕ) × (o : O) × Found c o × (h.cache_open c o ≡ refused e))

  abbrev NoKey : Type 0
  NoKey = (h.key ≡ none) ⊎ ((k : ℕ) × (h.key ≡ some k) × (h.cache_key k ≡ none))

  -- What a configured handler answers to a GET or a HEAD.
  abbrev Answers : Served R → Type 0
  Answers (content r) = (c : ℕ) × (o : O) × Found c o × (h.cache_open c o ≡ opened r)
  Answers (fails_with status) =
      ((status ≡ 400) × NoKey) ⊎ ((e : OpenError) × IsStatusOf e status × Refuses e)

  -- What stands behind an answer.
  abbrev pub Serves : Method → Served R → Type 0
  Serves m answer =
      ((answer ≡ fails_with 500) × ((h.has_cache ≡ false) ⊎ (h.has_source ≡ false)))
      ⊎ ((h.has_cache ≡ true)
          × (h.has_source ≡ true)
          × (((answer ≡ fails_with 405) × (m ≢ get) × (m ≢ head)) ⊎ (IsReading m × Answers answer)))

  status_of : (e : OpenError) → IsStatusOf e (serve_error e)
  unfolding serve_error
  status_of not_found = refl
  status_of range_not_satisfiable = refl
  status_of object_changed = refl
  status_of range_unsupported = refl
  status_of other_error = refl

  reader-Answers :
      (c : ℕ) (o : O) (x : Outcome R)
      → Found c o
      → h.cache_open c o ≡ x
      → Answers (serve_reader h x)
  unfolding serve_reader
  reader-Answers c o (refused e) f x = inr (e, status_of e, inr (c, o, f, x))
  reader-Answers c o (opened r) f x = (c, o, f, x)

  object-Answers :
      (k c : ℕ) (x : Outcome O)
      → h.key ≡ some k
      → h.cache_key k ≡ some c
      → h.source_open k ≡ x
      → Answers (serve_object h c x)
  unfolding serve_object
  object-Answers k c (refused e) a b d = inr (e, status_of e, inl (k, c, a, b, d))
  object-Answers k c (opened o) a b d = reader-Answers c o (h.cache_open c o) (k, a, b, d) refl

  cached-Answers :
      (k : ℕ) (x : Option ℕ) → h.key ≡ some k → h.cache_key k ≡ x → Answers (serve_cached h k x)
  unfolding serve_cached
  cached-Answers k none a b = inl (refl, inr (k, a, b))
  cached-Answers k (some c) a b = object-Answers k c (h.source_open k) a b refl

  key-Answers : (x : Option ℕ) → h.key ≡ x → Answers (serve_key h x)
  unfolding serve_key
  key-Answers none a = inl (refl, inl a)
  key-Answers (some k) a = cached-Answers k (h.cache_key k) a refl

  allowed-IsReading : (m : Method) → is_allowed m ≡ true → IsReading m
  unfolding is_allowed
  allowed-IsReading get e = inl refl
  allowed-IsReading head e = inr refl
  allowed-IsReading (other_method n) e = cc

  not_allowed : (m : Method) → is_allowed m ≡ false → (m ≢ get) × (m ≢ head)
  unfolding is_allowed
  not_allowed get e = cc
  not_allowed head e = cc
  not_allowed (other_method n) e = (λ x. cc, λ x. cc)

  -- `ServeHTTP` answers every request. Without a cache or a source the status is 500. With both it is 405 for a method
  -- other than GET and HEAD. For a GET or a HEAD it is 400 if the source key or the cache key could not be
  -- made; if the source or the cache refuses the open, the status says why (404, 416, 412 or 502); and the content is only that of
  -- the cache's reader for the source's object, opened with the request's own keys.
  pub serve-Serves : (m : Method) → Serves m (serve h m)
  unfolding serve
  serve-Serves m = elim (Bool-cases h.has_cache) [
    | inr a ↦ simp a (inl (refl, inl refl))
    | inl a ↦ elim (Bool-cases h.has_source) [
      | inr b ↦ simp (a, b) (inl (refl, inr refl))
      | inl b ↦ elim (Bool-cases (is_allowed m)) [
        | inr c ↦
            simp (a, b, c) (inr (refl, refl, inl (refl, (not_allowed m c).0, (not_allowed m c).1)))
        | inl c ↦
            simp (a, b, c) (inr (refl, refl, inr (allowed-IsReading m c, key-Answers h.key refl)))
      ]
    ]
  ]
