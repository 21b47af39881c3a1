-- ===== src/Cache/Write/Safety.antt =====
-- What `WriteAtNoOverwrite` keeps (cache/item.go).
use varc.Base.{
  ℕ, ◌+◌, ◌-◌, ◌<◌, ◌≤◌, ◌≡◌, ◌≢◌, ◌∙◌, ◌⊎◌, refl, subst, inl, inr, true, false, ◌&&◌, ◌||◌, none,
  some, List, [], ◌∷◌, length, get_or, take, drop, arith, ltb, leb, Bool-cases, Option-cases,
  int64_half, ◌==◌, add64, length-take, length-drop, get_or-take, get_or-drop,
}
use varc.Base.Int64.{add64_small}
use varc.Ranges.{Range, FoundRange, find_all, insert}
use varc.Ranges.Valid.{IsValid, covers, inside}
use varc.Ranges.Insert.{Adds, insert-Adds}
use varc.Ranges.FindAll.{Tiles, find_all-Tiles}
use varc.Ranges.Size.{count, count_split, count_congr, count_all, count_none}
use varc.Cache.Write.{
  Disk, IsDisk, WriteResult, offset_mismatch, Item, Writing, advance, write_error, write_missing,
  write_found, write_loop, write_at_no_overwrite,
}

-- Every byte that the item holds is the origin's.
abbrev pub IsFaithful : (ℕ → ℕ) → Item → Type 0
IsFaithful origin item =
    IsValid item.rs × ((x : ℕ) → covers item.rs x ≡ true → item.file x ≡ origin x)

-- `b` is the origin's bytes from `off` on.
abbrev pub IsOrigin : (ℕ → ℕ) → List ℕ → ℕ → Type 0
IsOrigin origin b off = (i : ℕ) → i < length b → get_or b i 0 ≡ origin (off + i)

-- What a run of the loop has done so far, for the item `old`, of which `p - off` bytes are handled.
record Progress (origin : ℕ → ℕ) (old : Item) (off len p : ℕ) (w : Writing) : Type 0 where
  faithful : IsFaithful origin w.item
  kept : (x : ℕ) → covers old.rs x ≡ true → w.item.file x ≡ old.file x
  added : (x : ℕ) → covers w.item.rs x ≡ (covers old.rs x || (leb off x && ltb x p))
  at : w.off ≡ p
  handled : off + w.n ≡ p
  left : p + length w.b ≡ off + len
  source : IsOrigin origin w.b p
  counted : w.skipped ≡ count (covers old.rs) off w.n
  mismatch : w.err ≢ some offset_mismatch

write_error_ne : (w : WriteResult) (k : ℕ) → write_error w k ≢ some offset_mismatch
unfolding write_error
write_error_ne w k e = ground arith

write_error-none : (w : WriteResult) (k : ℕ) → write_error w k ≡ none → w.wrote ≡ k
unfolding write_error
write_error-none w k e = ground arith

module _ (origin : ℕ → ℕ) (old : Item) (off len : ℕ) (fits : off + len < int64_half) where
  add_now :
      {p : ℕ} {w : Writing} (k : ℕ)
      → Progress origin old off len p w
      → k ≤ length w.b
      → add64 w.off k ≡ p + k
  add_now {p} {w} k P le = rw P.at (add64_small p k (omega (arith, P.left)))

  source_later :
      {p : ℕ} {w : Writing} (k : ℕ)
      → Progress origin old off len p w
      → k ≤ length w.b
      → IsOrigin origin (drop k w.b) (p + k)
  source_later {p} {w} k P le i lt =
      let e : p + k + i ≡ p + (i + k) = omega arith in
      rw (get_or-drop k i w.b 0, e) (P.source (i + k) (omega (arith, length-drop k w.b)))

  -- A present range is passed over.
  skip-Progress :
      {p : ℕ} {w : Writing} (k : ℕ)
      → Progress origin old off len p w
      → k ≤ length w.b
      → ((x : ℕ) → p ≤ x → x < p + k → covers old.rs x ≡ true)
      → Progress origin old off len (p + k) (advance w k k w.item none)
  unfolding advance
  skip-Progress {p} {w} k P le flags = record {
    faithful = P.faithful;
    kept = P.kept;
    added = λ x. ground (arith, P.added x, flags x, P.handled);
    at = add_now k P le;
    handled = omega (arith, P.handled);
    left = omega (arith, P.left, length-drop k w.b);
    source = source_later k P le;
    counted =
        let here : count (covers old.rs) (off + w.n) k ≡ k =
          rw P.handled (count_congr (covers old.rs) (λ _. true) p k flags ∙ count_all p k) in
        omega (arith, P.counted, count_split (covers old.rs) off w.n k, here);
    mismatch = λ e. cc;
  }

  -- A missing range: as many of its bytes as the disk took are written and recorded.
  module _ (write_at : Disk) (disk : IsDisk write_at) {p : ℕ} {w : Writing} (k : ℕ)
      (P : Progress origin old off len p w) (le : k ≤ length w.b)
      (flags : (x : ℕ) → p ≤ x → x < p + k → covers old.rs x ≡ false) where
    abbrev result : WriteResult
    result = write_at w.item.file (take k w.b) w.off

    taken_le : result.wrote ≤ k
    taken_le = omega (arith, disk.bounded w.item.file (take k w.b) w.off, length-take k w.b le)

    abbrev new_range : Range
    new_range = record { pos = w.off; size = result.wrote }

    recorded : Adds w.item.rs new_range (insert w.item.rs new_range)
    recorded = insert-Adds w.item.rs new_range P.faithful.0 (omega (arith, taken_le, P.at, P.left))

    -- A byte that was present is not in the place of the write.
    elsewhere : (x : ℕ) → covers w.item.rs x ≡ true → result.file x ≡ w.item.file x
    elsewhere x e = disk.outside w.item.file (take k w.b) w.off x (apart x e)
      where
        apart :
            (y : ℕ) → covers w.item.rs y ≡ true → (y < w.off) ⊎ (w.off + length (take k w.b) ≤ y)
        apart y h = ground (arith, P.added y, flags y, P.at, length-take k w.b le)

    fresh_at : (i : ℕ) → i < result.wrote → result.file (p + i) ≡ origin (p + i)
    fresh_at i lt =
        subst (λ y. result.file (y + i) ≡ get_or (take k w.b) i 0) P.at
          (disk.written w.item.file (take k w.b) w.off i lt)
        ∙ get_or-take k i w.b 0 (omega (arith, taken_le))
        ∙ P.source i (omega (arith, taken_le))

    fresh : (x : ℕ) → p ≤ x → x < p + result.wrote → result.file x ≡ origin x
    fresh x lo hi =
        let there : p + (x - p) ≡ x = omega arith in
        subst (λ y. result.file y ≡ origin y) there (fresh_at (x - p) (omega arith))

    held : (x : ℕ) → covers (insert w.item.rs new_range) x ≡ true → result.file x ≡ origin x
    held x e = elim (Bool-cases (covers w.item.rs x)) [
      | inl old_byte ↦ elsewhere x old_byte ∙ P.faithful.1 x old_byte
      | inr new_byte ↦
          let there : inside new_range x ≡ true = ground (arith, recorded.1 x) in
          fresh x (ground (arith, P.at)) (ground (arith, P.at))
    ]

    missing-Progress : Progress origin old off len (p + result.wrote) (write_missing write_at w k)
    unfolding write_missing advance
    missing-Progress = record {
      faithful = (recorded.0, held);
      kept = λ x e. elsewhere x (ground (arith, P.added x)) ∙ P.kept x e;
      added = λ x. recorded.1 x ∙ ground (arith, P.added x, P.handled, P.at);
      at = add_now result.wrote P (omega (arith, taken_le));
      handled = omega (arith, P.handled);
      left = omega (arith, P.left, length-drop result.wrote w.b, taken_le);
      source = source_later result.wrote P (omega (arith, taken_le));
      counted =
          let here : count (covers old.rs) (off + w.n) result.wrote ≡ 0 = rw P.handled (
            count_congr (covers old.rs) (λ _. false) p result.wrote
              (λ x lo hi. flags x lo (omega (arith, taken_le)))
            ∙ count_none p result.wrote) in
          omega (arith, P.counted, count_split (covers old.rs) off w.n result.wrote, here);
      mismatch = write_error_ne result k;
    }

-- What a run leaves: the item is still faithful to the origin, no present byte was touched, the bytes
-- recorded are the first `n` from `off` on, all of them if there is no error, and `skipped` counts
-- those that were present before. The offsets of the found ranges always match.
pub record Written (origin : ℕ → ℕ) (old : Item) (off len : ℕ) (w : Writing) : Type 0 where
  pub faithful : IsFaithful origin w.item
  pub kept : (x : ℕ) → covers old.rs x ≡ true → w.item.file x ≡ old.file x
  pub added : (x : ℕ) → covers w.item.rs x ≡ (covers old.rs x || (leb off x && ltb x (off + w.n)))
  pub within : w.n ≤ len
  pub complete : w.err ≡ none → w.n ≡ len
  pub counted : w.skipped ≡ count (covers old.rs) off w.n
  pub matched : w.err ≢ some offset_mismatch

module _ (origin : ℕ → ℕ) (old : Item) (off len : ℕ) (fits : off + len < int64_half)
    (write_at : Disk) (disk : IsDisk write_at) where
  finished :
      {p : ℕ} {w : Writing}
      → Progress origin old off len p w
      → (w.err ≡ none → p ≡ off + len)
      → Written origin old off len w
  finished {p} {w} P c = record {
    faithful = P.faithful;
    kept = P.kept;
    added = λ x. rw P.handled (P.added x);
    within = omega (arith, P.handled, P.left);
    complete = λ e. omega (arith, c e, P.handled);
    counted = P.counted;
    matched = P.mismatch;
  }

  -- One round, on the next piece of the range: it ends in an error, or handles the whole piece.
  write_found-Progress :
      {p : ℕ} {w : Writing} (found : FoundRange)
      → Progress origin old off len p w
      → found.r.pos ≡ p
      → found.r.size ≤ length w.b
      → ((x : ℕ) → p ≤ x → x < p + found.r.size → covers old.rs x ≡ found.present)
      → let next = write_found write_at w found in
        (q : ℕ) × Progress origin old off len q next × (next.err ≡ none → q ≡ p + found.r.size)
  unfolding write_found
  write_found-Progress {p} {w} found P e le flags =
      let here : (found.r.pos == w.off) ≡ true = ground (arith, P.at) in
      elim (Bool-cases found.present) [
        | inl yes_here ↦
            rw (here, yes_here)
              (
                p + found.r.size,
                skip-Progress origin old off len fits found.r.size P le
                    (λ x lo hi. flags x lo hi ∙ yes_here),
                λ _. refl,
              )
        | inr not_here ↦
            let flags' =
              λ (x : ℕ) (lo : p ≤ x) (hi : x < p + found.r.size). flags x lo hi ∙ not_here in
            rw (here, not_here)
              (
                _,
                missing-Progress origin old off len fits write_at disk found.r.size P le flags',
                λ h. omega (arith, write_error-none _ found.r.size h),
              )
      ]

  write_loop-Written :
      (found : List FoundRange) (p : ℕ) (w : Writing)
      → Progress origin old off len p w
      → w.err ≡ none
      → Tiles old.rs p (length w.b) found
      → Written origin old off len (write_loop write_at found w)
  unfolding write_loop
  write_loop-Written [] p w P e t = finished P (λ _. omega (arith, P.left))
  write_loop-Written (f ∷ fs) p w P e (at, pos, le, flags, _, rest) =
      let (q, P', full) = write_found-Progress f P at le flags in
      elim (Option-cases (write_found write_at w f).err) [
        | inl n ↦
            let q' : q ≡ p + f.r.size = full n in
            let l : length w.b - f.r.size ≡ length (write_found write_at w f).b =
              omega (arith, P.left, P'.left) in
            rw (n, write_loop)
              (write_loop-Written fs q (write_found write_at w f) P' n
                (rw q' (subst (λ m. Tiles old.rs (p + f.r.size) m fs) l rest)))
        | inr (x, n) ↦ rw (n, write_loop) (finished P' (λ h. cc))
      ]

-- `WriteAtNoOverwrite` of origin bytes, on an item that is faithful to the origin and a disk that
-- may fail or write short at any call, leaves the item faithful and every present byte as it was.
-- The bytes that become present are exactly the first `n` from the offset on, all of them when no
-- error is returned; `skipped` is the number of those that were present before, and the offset
-- mismatch is never reported. The condition is that the offset of the end is an int64.
pub write_at_no_overwrite-Written :
    (origin : ℕ → ℕ) (write_at : Disk) (item : Item) (b : List ℕ) (off : ℕ)
    → IsDisk write_at
    → IsFaithful origin item
    → IsOrigin origin b off
    → off + length b < int64_half
    → Written origin item off (length b) (write_at_no_overwrite write_at item b off)
unfolding write_at_no_overwrite
write_at_no_overwrite-Written origin write_at item b off disk faithful source fits =
    write_loop-Written origin item off (length b) fits write_at disk
      (find_all item.rs (record { pos = off; size = length b })) off _
      (record {
        faithful = faithful;
        kept = λ x e. refl;
        added = λ x. ground arith;
        at = refl;
        handled = omega arith;
        left = refl;
        source = source;
        counted = refl;
        mismatch = λ e. cc;
      })
      refl (find_all-Tiles item.rs (record { pos = off; size = length b }) faithful.0 fits)
