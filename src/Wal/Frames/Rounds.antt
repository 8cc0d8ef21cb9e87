-- ===== src/Wal/Frames/Rounds.antt =====
-- The loop over the frames ends, and a length that wraps round makes it panic.
use heliondb.Base.{
  ℕ, zero, suc, ◌+◌, ◌-◌, ◌%◌, ◌^◌, ◌≤◌, ◌<◌, Option, none, List, [], ◌∷◌, ◌++◌, ◌≡◌, refl, ap,
  arith, length, length-append, All,
}
use heliondb.Base.Bytes.{
  take, drop, length-drop, le_bytes, from_le_bytes, length-le_bytes, from_le_bytes-le_bytes,
  take-le_bytes, drop-le_bytes,
}
use heliondb.Error.{Result}
use heliondb.Table.{Table}
use heliondb.Wal.{WalRecord}
use heliondb.Wal.Frames.{
  Next, frame, body_at, next_frame, prepend, parse, replay_from, replay_wal_buf,
}
use heliondb.Wal.Frames.Roundtrip.{frames, next_frame-frame, length-frame, chunks_fit}

length-drop_le {ℓ} : {A : Type ℓ} (n : ℕ) (xs : List A) → length (drop n xs) ≤ length xs
length-drop_le zero xs = omega arith
length-drop_le (suc n) [] = omega arith
length-drop_le (suc n) (x ∷ xs) = omega (arith, length-drop_le n xs)

body_shrinks :
    (n start : ℕ) (body bytes later : List ℕ) (sum next : ℕ)
    → body_at n start body ≡ Next.found bytes sum next later
    → length later ≤ length body
unfolding body_at
body_shrinks n start body bytes later sum next h =
    let finish = (start + n) % 2 ^ 64 in
    ground
      (arith, length-drop_le 4 (drop (finish - start) body), length-drop_le (finish - start) body)

-- A round that finds a frame has taken bytes away.
shrinks :
    (offset : ℕ) (rest bytes later : List ℕ) (sum next : ℕ)
    → next_frame offset rest ≡ Next.found bytes sum next later
    → length later < length rest
unfolding next_frame
shrinks offset rest bytes later sum next h = ground (
  arith,
  body_shrinks (from_le_bytes (take 8 rest)) (offset + 8) (drop 8 rest) bytes later sum next,
  length-drop 8 rest,
)

no_bytes : (offset : ℕ) (rest : List ℕ) → length rest < 8 → next_frame offset rest ≡ Next.stop
unfolding next_frame
no_bytes offset rest h = ground arith

-- A length that makes the sum of the first test wrap round passes it and denotes no slice.
wrapped :
    (offset n : ℕ) (rest : List ℕ)
    → offset + (length rest + 8) < 2 ^ 63
    → n < 2 ^ 64
    → 2 ^ 64 ≤ offset + (n + 12)
    → n + 4 ≤ 2 ^ 64 + length rest
    → next_frame offset (le_bytes 8 n ++ rest) ≡ Next.panic
unfolding next_frame body_at
wrapped offset n rest h b w t =
    rw (take-le_bytes 8 n rest, drop-le_bytes 8 n rest, from_le_bytes-le_bytes 8 n b)
      (ground (arith, length-append (le_bytes 8 n) rest, length-le_bytes 8 n))

module _ (serialize : WalRecord → Result (List ℕ)) (deserialize : List ℕ → Option WalRecord)
    (hash : List ℕ → ℕ) where
  same_round :
      (f g offset : ℕ) (rest : List ℕ) (o : Next)
      → next_frame offset rest ≡ o
      → ((next : ℕ) (later : List ℕ)
          → length later < length rest
          → replay_from serialize deserialize hash f next later
            ≡ replay_from serialize deserialize hash g next later)
      → replay_from serialize deserialize hash (suc f) offset rest
        ≡ replay_from serialize deserialize hash (suc g) offset rest
  unfolding replay_from
  same_round f g offset rest Next.stop e ih = rw (replay_from, e) refl
  same_round f g offset rest Next.panic e ih = rw (replay_from, e) refl
  same_round f g offset rest (Next.found bytes sum next later) e ih =
      rw (replay_from, e)
        (ap (prepend (parse serialize deserialize hash bytes sum))
          (ih next later (shrinks offset rest bytes later sum next e)))

  same_fuel :
      (f g offset : ℕ) (rest : List ℕ)
      → length rest ≤ f
      → length rest ≤ g
      → replay_from serialize deserialize hash f offset rest
        ≡ replay_from serialize deserialize hash g offset rest
  unfolding replay_from
  same_fuel zero zero offset rest hf hg = refl
  same_fuel zero (suc g) offset rest hf hg =
      rw (replay_from, no_bytes offset rest (omega arith)) refl
  same_fuel (suc f) zero offset rest hf hg =
      rw (replay_from, no_bytes offset rest (omega arith)) refl
  same_fuel (suc f) (suc g) offset rest hf hg =
      same_round f g offset rest (next_frame offset rest) refl
        (λ next later h. same_fuel f g next later (omega arith) (omega arith))

  -- The rounds that `replay_wal_buf` allows for are enough: with any more of them the loop reads
  -- the same records.
  pub replay_from_enough :
      (extra offset : ℕ) (rest : List ℕ)
      → replay_from serialize deserialize hash (length rest + extra) offset rest
        ≡ replay_from serialize deserialize hash (length rest) offset rest
  replay_from_enough extra offset rest =
      same_fuel (length rest + extra) (length rest) offset rest (omega arith) (omega arith)

  wrapped_from :
      (fuel offset n : ℕ) (chunks : List (List ℕ × ℕ)) (rest : List ℕ)
      → length chunks < fuel
      → offset + length (frames chunks []) + (length rest + 8) < 2 ^ 63
      → All (λ c. c.1 < 2 ^ 32) chunks
      → n < 2 ^ 64
      → 2 ^ 64 ≤ offset + length (frames chunks []) + (n + 12)
      → n + 4 ≤ 2 ^ 64 + length rest
      → replay_from serialize deserialize hash fuel offset (frames chunks (le_bytes 8 n ++ rest))
        ≡ none
  unfolding replay_from
  wrapped_from zero offset n chunks rest le h s b w t = absurd (omega arith)
  wrapped_from (suc fuel) offset n [] rest le h s b w t =
      rw (replay_from, wrapped offset n rest (omega arith) b (omega arith) t) refl
  wrapped_from (suc fuel) offset n ((bytes, sum) ∷ chunks) rest le h s b w t =
      let size : length (frames ((bytes, sum) ∷ chunks) [])
          ≡ length bytes + 12 + length (frames chunks []) =
        omega (arith, length-append (frame bytes sum) (frames chunks []), length-frame bytes sum) in
      rw
        (
          replay_from,
          next_frame-frame offset bytes sum (frames chunks (le_bytes 8 n ++ rest))
              (omega (arith, size)) s.0,
        )
        (rw
          (wrapped_from fuel (offset + (length bytes + 12)) n chunks rest (omega arith)
            (omega (arith, size)) s.1 b (omega (arith, size)) t)
          refl)

  -- A log whose next frame starts with a length so large that the sum of the offset, the length
  -- and 4 wraps round to an offset within the log makes the replay panic, whatever came before it.
  -- A buffer is always shorter than 2^63 bytes.
  pub wrapped_length_panics :
      (tables : List Table) (chunks : List (List ℕ × ℕ)) (n : ℕ) (rest : List ℕ)
      → length (frames chunks []) + (length rest + 8) < 2 ^ 63
      → All (λ c. c.1 < 2 ^ 32) chunks
      → n < 2 ^ 64
      → 2 ^ 64 ≤ length (frames chunks []) + (n + 12)
      → n + 4 ≤ 2 ^ 64 + length rest
      → replay_wal_buf serialize deserialize hash tables (frames chunks (le_bytes 8 n ++ rest))
        ≡ none
  unfolding replay_wal_buf
  wrapped_length_panics tables chunks n rest h s b w t =
      rw
        (
          replay_wal_buf,
          wrapped_from (length (frames chunks (le_bytes 8 n ++ rest))) 0 n chunks rest
              (omega (
                arith,
                chunks_fit chunks (le_bytes 8 n ++ rest),
                length-append (le_bytes 8 n) rest,
                length-le_bytes 8 n,
              ))
              (omega arith) s b (omega arith) t,
        )
        refl
