-- ===== src/Cache/Clean/Quotas.antt =====
-- What a pass of the cleaner achieves (cache/cache.go).
use varc.Base.{
  ℕ, ◌≡◌, ◌≢◌, ◌⊎◌, inl, inr, refl, sym, subst, ap, arith, Bool, true, false, not, ◌&&◌, ◌||◌,
  Option, none, some, List, [], ◌∷◌, ◌==◌, sub64, lt64, Bool-cases,
}
use varc.Cache.Clean.{
  Limits, CleanError, Freed, Candidate, Store, sum_used, Cleaning, is_gone, is_unused, quotas_ok,
  removed_unused, remove_unused, after_removal, try_remove, age_pass, unused_pass, note_reset,
  after_reset, open_pass, shrink, clean_items,
}

-- A candidate of the key, with bytes, is in the list.
abbrev pub Wanted : ℕ → List Candidate → Type 0
Wanted k [] = ⊥
Wanted k (c ∷ cs) = ((c.key ≡ k) × (c.size ≢ 0)) ⊎ Wanted k cs

-- The key is among those that were handed to `resetForSpace`.
abbrev pub Handed : ℕ → List ℕ → Type 0
Handed k [] = ⊥
Handed k (j ∷ js) = (j ≡ k) ⊎ Handed k js

-- A store that also writes down the keys that are handed to `resetForSpace`.
unfoldable pub logged {ℓ} : {S : Type ℓ} → Store S → Store (S × List ℕ)
logged st = record {
  candidates = λ s. st.candidates s.0;
  reset = λ s key. let r = st.reset s.0 key in ((r.0, key ∷ s.1), r.1);
  delete = λ s key. (st.delete s.0 key, s.1);
  has = λ s key. st.has s.0 key;
  failed = λ s. st.failed s.0;
  remember = λ s key e. (st.remember s.0 key e, s.1);
  forgive = λ s key. (st.forgive s.0 key, s.1);
  available = λ s. st.available s.0;
  sort = st.sort;
}

module _ {ℓ} {S : Type ℓ} (st : Store S) (opt : Limits) (k : ℕ)
    (sorts : (cs : List Candidate) → Wanted k cs → Wanted k (st.sort cs)) where
  -- The item of key `k` was handed to `resetForSpace`.
  abbrev Tried : S × List ℕ → Type 0
  Tried s = Handed k s.1

  -- The store, with the candidate after an attempt to remove it.
  Attempted : S × List ℕ → Candidate → (S × List ℕ) × ℕ × Candidate → Type 0
  Attempted s c (s', used', c') = (Tried s → Tried s') × (c.key ≡ k → Tried s')

  removed-Attempted :
      (s : S × List ℕ) (used : ℕ) (c : Candidate) (r : (S × List ℕ) × Freed)
      → (Tried s → Tried r.0)
      → (c.key ≡ k → Tried r.0)
      → Attempted s c
          (after_removal (logged st) opt c used (removed_unused (logged st) opt c.key r))
  unfolding removed_unused after_removal Attempted logged
  removed-Attempted s used c (s', r) t tk = elim (Bool-cases (is_gone r.err r.removed)) [
    | inl e ↦ rw e (t, tk)
    | inr e ↦ rw e (t, tk)
  ]

  try_remove-Attempted :
      (s : S × List ℕ) (used : ℕ) (c : Candidate)
      → Attempted s c (try_remove (logged st) opt s used c)
  unfolding try_remove remove_unused logged
  try_remove-Attempted s used c =
      removed-Attempted s used c ((logged st).reset s c.key) (λ x. inr x) (λ e. inl e)

  -- What a loop over candidates leaves: the item is still wanted, or it has been tried.
  Looped : S × List ℕ → List Candidate → Cleaning (S × List ℕ) → Type 0
  Looped s cs w = (Tried s → Tried w.store) × (Wanted k cs → Tried w.store ⊎ Wanted k w.items)

  -- One more candidate in front of the rest of a loop.
  step-Looped :
      (s : S × List ℕ) (used : ℕ) (c : Candidate) (cs : List Candidate)
      (now : (S × List ℕ) × ℕ × Candidate) (rest : Cleaning (S × List ℕ))
      → Attempted s c now ⊎ (now ≡ (s, used, c))
      → Looped now.0 cs rest
      → Looped s (c ∷ cs) (record rest { items = now.2 ∷ rest.items })
  unfolding Attempted Looped
  step-Looped s used c cs (s', used', c') rest (inl (t, tk)) (rt, rw') = (
    λ x. rt (t x),
    λ w. elim w [
      | inl (e, z) ↦ inl (rt (tk e))
      | inr w' ↦ elim (rw' w') [ inl x ↦ inl x | inr x ↦ inr (inr x) ]
    ],
  )
  step-Looped s used c cs now rest (inr e) (rt, rw') =
      let es : now.0 ≡ s = ap (λ (x : (S × List ℕ) × ℕ × Candidate). x.0) e in
      let ec : now.2 ≡ c = ap (λ (x : (S × List ℕ) × ℕ × Candidate). x.2) e in
      (
        λ x. rt (subst Tried (sym es) x),
        λ w. elim w [
          | inl (ek, z) ↦
              inr (inl (subst (λ (d : Candidate). (d.key ≡ k) × (d.size ≢ 0)) (sym ec) (ek, z)))
          | inr w' ↦ elim (rw' w') [ inl x ↦ inl x | inr x ↦ inr (inr x) ]
        ],
      )

  unchanged-Looped :
      (s : S × List ℕ) (used : ℕ) (cs : List Candidate)
      → Looped s cs (record { store = s; used = used; items = cs })
  unfolding Looped
  unchanged-Looped s used cs = (λ x. x, λ w. inr w)

  age_pass-Looped :
      (cutoff : ℕ) (cs : List Candidate) (s : S × List ℕ) (used : ℕ)
      → Looped s cs (age_pass (logged st) opt cutoff cs s used)
  unfolding age_pass
  age_pass-Looped cutoff [] s used = unchanged-Looped s used []
  age_pass-Looped cutoff (c ∷ cs) s used = elim (Bool-cases (is_unused c && lt64 c.atime cutoff)) [
    | inl e ↦ rw e (
        step-Looped s used c cs (try_remove (logged st) opt s used c) _
          (inl (try_remove-Attempted s used c)) (age_pass-Looped cutoff cs _ _))
    | inr e ↦
        rw e (step-Looped s used c cs (s, used, c) _ (inr refl) (age_pass-Looped cutoff cs s used))
  ]

  unused_pass-Looped :
      (cs : List Candidate) (s : S × List ℕ) (used : ℕ)
      → Looped s cs (unused_pass (logged st) opt cs s used)
  unfolding unused_pass
  unused_pass-Looped [] s used = unchanged-Looped s used []
  unused_pass-Looped (c ∷ cs) s used = elim (Bool-cases (quotas_ok (logged st) opt s used)) [
    | inl q ↦ rw q (unchanged-Looped s used (c ∷ cs))
    | inr q ↦ rw q (elim (Bool-cases ((c.size == 0) || not (is_unused c))) [
      | inl e ↦
          rw e (step-Looped s used c cs (s, used, c) _ (inr refl) (unused_pass-Looped cs s used))
      | inr e ↦ rw e (
          step-Looped s used c cs (try_remove (logged st) opt s used c) _
            (inl (try_remove-Attempted s used c)) (unused_pass-Looped cs _ _))
    ])
  ]

  -- What the last loop leaves.
  Opened : S × List ℕ → List Candidate → (S × List ℕ) × ℕ → Type 0
  Opened s cs r =
      (Tried s → Tried r.0) × (Wanted k cs → (quotas_ok (logged st) opt r.0 r.1 ≡ true) ⊎ Tried r.0)

  note_reset-Tried :
      (key : ℕ) (s : S × List ℕ) (removed : Bool) (e : Option CleanError)
      → Tried s
      → Tried (note_reset (logged st) opt key s removed e)
  unfolding note_reset logged
  note_reset-Tried key s removed (some e) t = t
  note_reset-Tried key s true none t = t
  note_reset-Tried key s false none t = t

  after_reset-Tried :
      (s : S × List ℕ) (used key : ℕ)
      → (Tried s → Tried (after_reset (logged st) opt key used ((logged st).reset s key)).0)
        × (key ≡ k → Tried (after_reset (logged st) opt key used ((logged st).reset s key)).0)
  unfolding after_reset logged
  after_reset-Tried s used key =
      let r = st.reset s.0 key in
      (
        λ x. note_reset-Tried key (r.0, key ∷ s.1) r.1.removed r.1.err (inr x),
        λ e. note_reset-Tried key (r.0, key ∷ s.1) r.1.removed r.1.err (inl e),
      )

  open_pass-Opened :
      (cs : List Candidate) (s : S × List ℕ) (used : ℕ)
      → Opened s cs (open_pass (logged st) opt cs s used)
  unfolding open_pass Opened
  open_pass-Opened [] s used = (λ x. x, λ w. elim w [ ])
  open_pass-Opened (c ∷ cs) s used = elim (Bool-cases (quotas_ok (logged st) opt s used)) [
    | inl q ↦ rw q (λ x. x, λ w. inl q)
    | inr q ↦ rw q (elim (Bool-cases (c.size == 0)) [
      | inl e ↦
          let (rt, rw') = open_pass-Opened cs s used in
          rw e (rt, λ w. elim w [ inl (ek, z) ↦ absurd (z (ground arith)) | inr w' ↦ rw' w' ])
      | inr e ↦
          let a = after_reset-Tried s used c.key in
          let next = after_reset (logged st) opt c.key used ((logged st).reset s c.key) in
          let (rt, rw') = open_pass-Opened cs next.0 next.1 in
          rw e (λ x. rt (a.0 x), λ w. elim w [ inl (ek, z) ↦ inr (rt (a.1 ek)) | inr w' ↦ rw' w' ])
    ])
  ]

  shrink-Opened : (w : Cleaning (S × List ℕ)) → Opened w.store w.items (shrink (logged st) opt w)
  unfolding shrink Opened Looped logged
  shrink-Opened w = elim (Bool-cases (quotas_ok (logged st) opt w.store w.used)) [
    | inl q ↦ rw q (λ x. x, λ _. inl q)
    | inr q ↦
        let (pt, pw) = unused_pass-Looped ((logged st).sort w.items) w.store w.used in
        let p = unused_pass (logged st) opt ((logged st).sort w.items) w.store w.used in
        let (ot, ow) = open_pass-Opened p.items p.store p.used in
        rw q
          (λ x. ot (pt x), λ h. elim (pw (sorts w.items h)) [ inl x ↦ inr (ot x) | inr x ↦ ow x ])
  ]

  -- For any store of items, whose `sort` keeps what is in a list: a pass of the cleaner, of which the keys that it hands
  -- to `resetForSpace` are written down from an empty list on, ends with a store and a count of bytes for which the quotas hold, or
  -- it has handed each candidate that had bytes to `resetForSpace`, which may still leave the item as it is.
  pub clean_items-quotas :
      (now : ℕ) (s : S)
      → Wanted k (st.candidates s)
      → (quotas_ok
            (logged st)
            opt
            (clean_items (logged st) opt now (s, [])).0
            (clean_items (logged st) opt now (s, [])).1
          ≡ true)
        ⊎ Handed k (clean_items (logged st) opt now (s, [])).0.1
  unfolding clean_items Looped Opened logged
  clean_items-quotas now s wanted =
      let used = sum_used (st.candidates s) 0 in
      elim (Bool-cases (lt64 0 opt.max_age)) [
        | inl e ↦
            let w =
              age_pass (logged st) opt (sub64 now opt.max_age) (st.candidates s) (s, []) used in
            let (at, aw) = age_pass-Looped (sub64 now opt.max_age) (st.candidates s) (s, []) used in
            let (ot, ow) = shrink-Opened w in
            rw e (elim (aw wanted) [ inl x ↦ inr (ot x) | inr x ↦ ow x ])
        | inr e ↦
            let (ot, ow) =
              shrink-Opened (record { store = (s, []); used = used; items = st.candidates s }) in
            rw e (ow wanted)
      ]
