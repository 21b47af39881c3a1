-- ===== src/ChunkStream/Sequential/Full.antt =====
-- `io.ReadFull` of a stream that keeps its promises: enough rounds are given, and what comes is the
-- next bytes, all that were asked for unless an error is returned.
use varc.Base.{
  ℕ, zero, suc, ◌+◌, ◌-◌, ◌<◌, ◌≤◌, ◌≡◌, ◌≢◌, ◌∙◌, sym, subst, inl, inr, refl, arith, Option, none,
  some, List, [], length, get_or, length-append, ◌==◌, if◌then◌else◌, Bool-cases,
}
use varc.ObjectIo.{ReadError, eof}
use varc.ObjectIo.Reads.{bytes_append}
use varc.ChunkStream.{Source}
use varc.ChunkStream.Sequential.{Filled, add_front, filled_by, read_full}
use varc.ChunkStream.Sequential.Live.{Answers, IsSource}

module _ {S : Type 0} (origin : ℕ → ℕ) (size bound : ℕ) (pos stop : S → ℕ) where
  -- What `n` bytes read in full from the stream of `s` are.
  pub record Fills (s : S) (n : ℕ) (r : Filled S) : Type 0 where
    pub few : length r.bytes ≤ n
    pub sound : (i : ℕ) → i < length r.bytes → get_or r.bytes i 0 ≡ origin (pos s + i)
    pub moves : pos r.world ≡ pos s + length r.bytes
    pub keeps : stop r.world ≡ stop s
    pub within : pos s ≤ stop s → pos r.world ≤ stop s
    pub full : r.err ≡ none → length r.bytes ≡ n
    pub short : r.err ≢ none → length r.bytes < n
    pub ends : r.err ≡ some eof → pos r.world ≡ stop s

  nothing-Fills : (s : S) (n : ℕ) → n ≡ 0 → Fills s n (record { world = s; bytes = []; err = none })
  nothing-Fills s n e = record {
    few = omega arith;
    sound = λ i lt. absurd (omega arith);
    moves = omega arith;
    keeps = refl;
    within = λ h. h;
    full = λ _. omega arith;
    short = λ h. absurd (h refl);
    ends = λ h. cc;
  }

  stopped-Fills :
      (s : S) (n : ℕ) (s' : S) (bytes : List ℕ) (e : ReadError)
      → Answers origin size bound pos stop s n (s', bytes, some e)
      → Fills s n
          (record { world = s'; bytes = bytes; err = if length bytes == n then none else some e })
  stopped-Fills s n s' bytes e a = elim (Bool-cases (length bytes == n)) [
    | inl y ↦ rw y (record {
      few = a.few;
      sound = a.sound;
      moves = a.moves;
      keeps = a.keeps;
      within = a.within;
      full = λ _. ground arith;
      short = λ h. absurd (h refl);
      ends = λ h. cc;
    })
    | inr y ↦ rw y (record {
      few = a.few;
      sound = a.sound;
      moves = a.moves;
      keeps = a.keeps;
      within = a.within;
      full = λ h. cc;
      short = λ _. ground (arith, a.few);
      ends = a.ends;
    })
  ]

  filled_by-Fills :
      (o : Source S) (s : S) (n : ℕ) (a : S × List ℕ × Option ReadError) (rest : Option (Filled S))
      → 0 < n
      → Answers origin size bound pos stop s n a
      → (0 < length a.1 → (r : Filled S) × (rest ≡ some r) × Fills a.0 (n - length a.1) r)
      → (r : Filled S) × (filled_by o n a rest ≡ some r) × Fills s n r
  unfolding filled_by add_front
  filled_by-Fills o s n (s', bytes, some e) rest positive a more =
      (_, refl, stopped-Fills s n s' bytes e a)
  filled_by-Fills o s n (s', bytes, none) rest positive a more =
      let (r, e, f) = more (a.progress positive refl) in
      rw e (
        _,
        refl,
        record {
          few = omega (arith, a.few, f.few, length-append bytes r.bytes);
          sound =
              bytes_append (λ i. origin (pos s + i)) bytes r.bytes a.sound
                (λ i lt.
                  let place : pos s' + i ≡ pos s + (length bytes + i) = omega (arith, a.moves) in
                  subst (λ q. get_or r.bytes i 0 ≡ origin q) place (f.sound i lt));
          moves = omega (arith, a.moves, f.moves, length-append bytes r.bytes);
          keeps = f.keeps ∙ a.keeps;
          within = λ h.
              subst (λ q. pos r.world ≤ q) a.keeps
                (f.within (subst (λ q. pos s' ≤ q) (sym a.keeps) (a.within h)));
          full = λ h. omega (arith, f.full h, a.few, length-append bytes r.bytes);
          short = λ h. omega (arith, f.short h, a.few, length-append bytes r.bytes);
          ends = λ h. f.ends h ∙ a.keeps;
        },
      )

  pub read_full-Fills :
      (o : Source S)
      → IsSource origin size bound pos stop o
      → (k : ℕ) (s : S) (n : ℕ) → n ≤ k
      → (r : Filled S) × (read_full o k s n ≡ some r) × Fills s n r
  unfolding read_full
  read_full-Fills o source zero s n le =
      let nz : n ≡ 0 = omega arith in simp nz (_, refl, nothing-Fills s 0 refl)
  read_full-Fills o source (suc k) s n le = elim (Bool-cases (n == 0)) [
    | inl y ↦ simp y (_, refl, nothing-Fills s n (ground arith))
    | inr z ↦ simp z (
        filled_by-Fills o s n (o.read s n)
          (read_full o k (o.read s n).0 (n - length (o.read s n).1)) (ground arith)
          (source.answers s n)
          (λ h.
            read_full-Fills o source k (o.read s n).0 (n - length (o.read s n).1) (omega arith)))
  ]
