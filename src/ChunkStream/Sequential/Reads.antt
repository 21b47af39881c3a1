-- ===== src/ChunkStream/Sequential/Reads.antt =====
-- `Read` of the sequential reader crosses from chunk to chunk without losing, repeating or inventing a
-- byte (internal/engine/chunkstream/sequential.go).
use varc.Base.{
  ℕ, zero, suc, ◌+◌, ◌-◌, ◌<◌, ◌≤◌, ◌≡◌, ◌∙◌, subst, ap, inl, inr, refl, arith, true, false, Option,
  none, some, [], length, get_or, length-append, ◌==◌, if◌then◌else◌, ◌&&◌, add64, sub64, lt64,
  minus_one, int64_half, Bool-cases, Option-cases, ltb,
}
use varc.Base.Int64.{add64_small, sub64_small, lt64_small}
use varc.ObjectIo.{eof}
use varc.ObjectIo.Reads.{bytes_append}
use mathlib.Core.Bool.{and-false}
use varc.ChunkStream.{Source}
use varc.ChunkStream.Sequential.{
  Sequential, ChunkError, source_error, Filled, SequentialRead, prepare, chunk_part, moved,
  with_front, after_part, read_part, read_prepared, read_loop, read,
}
use varc.ChunkStream.Sequential.Live.{
  chunk_end, chunk_end_le, chunk_end_size, source_error_injective, le-chunk_end, IsChunkSize,
  IsSource, IsReady, Prepared,
}
use varc.ChunkStream.Sequential.Prepare.{IsLive, IsReading, prepare-Prepared}
use varc.ChunkStream.Sequential.Full.{Fills, read_full-Fills}

endless : lt64 0 minus_one ≡ false
unfolding lt64
endless = refl

part_bounds :
    (bound offset chunk p n : ℕ)
    → IsChunkSize bound chunk
    → offset + bound < int64_half
    → offset ≤ p
    → (lt64 0 chunk ≡ true → p < offset + chunk)
    → 0 < n
    → n < int64_half
    → let rest = sub64 (add64 offset chunk) p in
      let part = if lt64 rest n && lt64 0 chunk then rest else n in
      (0 < part) × (part ≤ n) × (lt64 0 chunk ≡ true → p + part ≤ offset + chunk)
part_bounds bound offset chunk p n (inl e) small le before positive few =
    rw (e, endless, and-false (lt64 (sub64 (add64 offset minus_one) p) n))
      (positive, omega arith, λ h. cc)
part_bounds bound offset chunk p n (inr (some_size, most)) small le before positive few =
    let some_chunk : lt64 0 chunk ≡ true =
      lt64_small 0 chunk (omega arith) (omega arith) ∙ ground arith in
    let less = before some_chunk in
    let rest : sub64 (add64 offset chunk) p ≡ offset + chunk - p =
      rw (add64_small offset chunk (omega arith))
        (sub64_small (offset + chunk) p (omega arith) (omega arith)) in
    let short : lt64 (offset + chunk - p) n ≡ ltb (offset + chunk - p) n =
      lt64_small (offset + chunk - p) n (omega arith) few in
    rw (rest, some_chunk, short)
      (elim (Bool-cases (ltb (offset + chunk - p) n)) [
        | inl y ↦ rw y (omega arith, ground arith, λ _. omega arith)
        | inr m ↦ rw m (positive, omega arith, λ _. ground arith)
      ])

module _ {S : Type 0} (origin : ℕ → ℕ) (size bound : ℕ) (pos stop : S → ℕ) where
  -- What `n` bytes read from position `p` are.
  pub record IsRead (p n : ℕ) (r : SequentialRead S) : Type 0 where
    pub few : length r.bytes ≤ n
    pub sound : (i : ℕ) → i < length r.bytes → get_or r.bytes i 0 ≡ origin (p + i)
    pub complete : r.err ≡ none → length r.bytes ≡ n
    pub live : r.err ≡ none → IsLive origin size bound pos stop (p + n) r.reader r.world
    pub ends : r.err ≡ some (source_error eof) → p + length r.bytes ≡ size

  chunk_part_bounds :
      (c : Sequential) (s : S) (p n : ℕ)
      → IsReady origin size bound pos stop p c s
      → size + bound < int64_half
      → 0 < n
      → n < int64_half
      → (0 < chunk_part c n)
        × (chunk_part c n ≤ n)
        × (lt64 0 c.chunk_size ≡ true → p + chunk_part c n ≤ c.chunk_offset + c.chunk_size)
  unfolding chunk_part
  chunk_part_bounds c s p n r small positive few = rw r.at (
      part_bounds bound c.chunk_offset c.chunk_size p n r.chunked.sized (omega arith) r.in_chunk
        r.before positive few)

  module _ (o : Source S) (source : IsSource origin size bound pos stop o)
      (fits : size + bound < int64_half) (room : size + size ≤ bound) where
    moved-Reading :
        (c : Sequential) (s : S) (p n : ℕ) (r : Filled S)
        → IsReady origin size bound pos stop p c s
        → 0 < n
        → n < int64_half
        → Fills origin size bound pos stop s (chunk_part c n) r
        → r.err ≡ none
        → IsReading origin size bound pos stop
            (p + chunk_part c n)
            (moved c (length r.bytes))
            r.world
    unfolding moved
    moved-Reading c s p n r ready positive small f e =
        let (some_part, most, inside) = chunk_part_bounds c s p n ready fits positive small in
        let le : p ≤ chunk_end size c.chunk_offset c.chunk_size =
          le-chunk_end size bound c.chunk_offset c.chunk_size p (omega arith) ready.chunked.sized
            ready.in_size (λ h. omega (arith, ready.before h)) in
        let within = f.within (omega (arith, ready.covers.begins, ready.covers.until)) in
        let least : p + chunk_part c n ≤ size = omega (
          arith,
          f.moves,
          f.full e,
          ready.covers.begins,
          ready.covers.until,
          chunk_end_le size c.chunk_offset c.chunk_size,
        ) in
        let same : add64 c.offset (length r.bytes) ≡ p + chunk_part c n =
          ap (λ q. add64 q (length r.bytes)) ready.at
          ∙ ap (add64 p) (f.full e)
          ∙ add64_small p (chunk_part c n) (omega arith) in
        record {
          chunked = record {
            still_open = ready.chunked.still_open;
            sized = ready.chunked.sized;
            initially = ready.chunked.initially;
            at_most = ready.chunked.at_most;
          };
          has_stream = ready.has_stream;
          at = same;
          covers = record {
            begins = omega (arith, f.moves, f.full e, ready.covers.begins);
            until = f.keeps ∙ ready.covers.until;
          };
          in_chunk = omega arith;
          in_size = least;
          not_after = λ h. omega (arith, inside h);
        }

    sound_from :
        (c : Sequential) (s : S) (p n : ℕ) (r : Filled S)
        → IsReady origin size bound pos stop p c s
        → Fills origin size bound pos stop s n r
        → (i : ℕ) → i < length r.bytes
        → get_or r.bytes i 0 ≡ origin (p + i)
    sound_from c s p n r ready f i lt =
        subst (λ j. get_or r.bytes i 0 ≡ origin (j + i)) ready.covers.begins (f.sound i lt)

    at_end :
        (c : Sequential) (s : S) (p n : ℕ) (r : Filled S)
        → IsReady origin size bound pos stop p c s
        → 0 < n
        → n < int64_half
        → Fills origin size bound pos stop s (chunk_part c n) r
        → r.err ≡ some eof
        → p + length r.bytes ≡ size
    at_end c s p n r ready positive small f e =
        let b = chunk_part_bounds c s p n ready fits positive small in
        let short = f.short (λ h. cc (h, e)) in
        let place : p + length r.bytes ≡ chunk_end size c.chunk_offset c.chunk_size =
          omega (arith, f.ends e, f.moves, ready.covers.begins, ready.covers.until) in
        chunk_end_size size bound c.chunk_offset c.chunk_size (p + length r.bytes) (omega arith)
          ready.chunked.sized place (λ h. omega (arith, b.2 h))

    nothing-IsRead :
        (c : Sequential) (s : S) (p : ℕ)
        → IsLive origin size bound pos stop p c s
        → IsRead p 0 (record { reader = c; world = s; bytes = []; err = none })
    nothing-IsRead c s p live = record {
      few = omega arith;
      sound = λ i lt. absurd (omega arith);
      complete = λ _. refl;
      live = λ _. subst (λ j. IsLive origin size bound pos stop j c s) (omega arith) live;
      ends = λ h. cc;
    }

    pub IsLive-still_open :
        (c : Sequential) (s : S) (p : ℕ)
        → IsLive origin size bound pos stop p c s
        → c.closed ≡ false
    IsLive-still_open c s p (inl w) = w.chunked.still_open
    IsLive-still_open c s p (inr r) = r.chunked.still_open

    read_part-IsRead :
        (more : Sequential → S → Option (SequentialRead S)) (c : Sequential) (s : S) (p n : ℕ)
        (r : Filled S)
        → IsReady origin size bound pos stop p c s
        → 0 < n
        → n < int64_half
        → Fills origin size bound pos stop s (chunk_part c n) r
        → ((c' : Sequential) (s' : S)
            → IsLive origin size bound pos stop (p + chunk_part c n) c' s'
            → (q : SequentialRead S) × (more c' s' ≡ some q)
              × IsRead (p + chunk_part c n) (n - chunk_part c n) q)
        → (q : SequentialRead S) × (read_part o more c (some r) ≡ some q) × IsRead p n q
    unfolding read_part after_part with_front
    read_part-IsRead more c s p n r ready positive small f rest = elim (Option-cases r.err) [
      | inl e ↦
          let b = chunk_part_bounds c s p n ready fits positive small in
          let (q, run, is) =
            rest (moved c (length r.bytes)) r.world
              (inr (moved-Reading c s p n r ready positive small f e)) in
          simp e (
            rw run (
              _,
              refl,
              record {
                few = omega (arith, f.few, is.few, length-append r.bytes q.bytes, b.1);
                sound =
                    bytes_append (λ i. origin (p + i)) r.bytes q.bytes
                      (sound_from c s p (chunk_part c n) r ready f)
                      (λ i lt.
                        let place : p + chunk_part c n + i ≡ p + (length r.bytes + i) =
                          omega (arith, f.full e) in
                        subst (λ j. get_or q.bytes i 0 ≡ origin j) place (is.sound i lt));
                complete =
                    λ h. omega (arith, f.full e, is.complete h, length-append r.bytes q.bytes, b.1);
                live = λ h.
                    subst (λ j. IsLive origin size bound pos stop j q.reader q.world)
                      (omega (arith, b.1)) (is.live h);
                ends = λ h. omega (arith, f.full e, is.ends h, length-append r.bytes q.bytes);
              },
            ))
      | inr (x, e) ↦ simp e (
        _,
        refl,
        record {
          few = omega (arith, f.few, (chunk_part_bounds c s p n ready fits positive small).1);
          sound = sound_from c s p (chunk_part c n) r ready f;
          complete = λ h. cc;
          live = λ h. cc;
          ends =
              λ h. at_end c s p n r ready positive small f (e ∙ ap some (source_error_injective h));
        },
      )
    ]

    read_prepared-IsRead :
        (more : Sequential → S → Option (SequentialRead S)) (p n : ℕ)
        (a : Sequential × S × Option ChunkError)
        → Prepared origin size bound pos stop p a
        → 0 < n
        → n < int64_half
        → ((m : ℕ) (c' : Sequential) (s' : S)
            → 0 < m
            → m ≡ chunk_part a.0 n
            → m ≤ n
            → IsLive origin size bound pos stop (p + m) c' s'
            → (q : SequentialRead S) × (more c' s' ≡ some q) × IsRead (p + m) (n - m) q)
        → (q : SequentialRead S) × (read_prepared o more n a ≡ some q) × IsRead p n q
    unfolding read_prepared
    read_prepared-IsRead more p n (c, s, some e) ready positive small rest = (
      _,
      refl,
      record {
        few = omega arith;
        sound = λ i lt. absurd (omega arith);
        complete = λ h. cc;
        live = λ h. cc;
        ends = λ h. absurd (ready.no_end h);
      },
    )
    read_prepared-IsRead more p n (c, s, none) prepared positive small rest =
        let ready = prepared.ready refl in
        let b = chunk_part_bounds c s p n ready fits positive small in
        let (r, run, f) =
          read_full-Fills origin size bound pos stop o source (chunk_part c n) s (chunk_part c n)
            (omega arith) in
        rw run (
          read_part-IsRead more c s p n r ready positive small f
            (λ c' s' live. rest (chunk_part c n) c' s' b.0 refl b.1 live))

    read_loop-IsRead :
        (k : ℕ) (c : Sequential) (s : S) (p n : ℕ)
        → IsLive origin size bound pos stop p c s
        → n ≤ k
        → n < int64_half
        → (q : SequentialRead S) × (read_loop o k c s n ≡ some q) × IsRead p n q
    unfolding read_loop
    read_loop-IsRead zero c s p n live le small =
        let nz : n ≡ 0 = omega arith in simp nz (_, refl, nothing-IsRead c s p live)
    read_loop-IsRead (suc k) c s p n live le small = elim (Bool-cases (n == 0)) [
      | inl y ↦ let nz : n ≡ 0 = ground arith in simp nz (_, refl, nothing-IsRead c s p live)
      | inr z ↦ simp z (
          read_prepared-IsRead (λ c' s'. read_loop o k c' s' (n - chunk_part (prepare o c s).0 n)) p
            n (prepare o c s)
            (prepare-Prepared origin size bound pos stop o source fits room c s p live)
            (ground arith) small
            (λ m c' s' positive e few live'.
              subst
                (λ j.
                  (q : SequentialRead S) × (read_loop o k c' s' (n - j) ≡ some q)
                  × IsRead (p + m) (n - m) q)
                e (read_loop-IsRead k c' s' (p + m) (n - m) live' (omega arith) (omega arith))))
    ]

    -- For an object of `size` bytes whose streams keep their promises, and a reader that is not closed,
    -- at position `p`, with chunk sizes that are unlimited or at most `bound`, where `bound` is at least
    -- twice `size` and their sum is less than 2 ^ 63: `Read` of `n` bytes ends. It returns at most `n`
    -- bytes, and they are the object's from `p` on, whatever chunks they are in. Without an error there are `n` and the reader stands after
    -- them, so that this holds again; with EOF the last byte is the object's last.
    pub sequential_read :
        (c : Sequential) (s : S) (p n : ℕ)
        → IsLive origin size bound pos stop p c s
        → n < int64_half
        → (q : SequentialRead S) × (read o c s n ≡ some q) × IsRead p n q
    unfolding read
    sequential_read c s p n live small =
        simp (IsLive-still_open c s p live) (read_loop-IsRead n c s p n live (omega arith) small)
