-- ===== src/Wal/Frames/Roundtrip.antt =====
-- Replaying the log gives back the records that were appended to it, up to where it was cut off.
use heliondb.Base.{
  ℕ, zero, suc, ◌+◌, ◌-◌, ◌%◌, ◌^◌, ◌≤◌, ◌<◌, Option, none, some, List, [], ◌∷◌, ◌++◌, ◌≡◌, ◌⊎◌,
  inl, inr, refl, ap, ◌∙◌, arith, length, length-append, All, subst, if◌then◌else◌, ◌==◌,
}
use mathlib.Core.List.{append_assoc, append-nil}
use heliondb.Base.Bytes.{
  take-append, drop-append, le_bytes, length-le_bytes, take-le_bytes, drop-le_bytes,
  from_le_bytes-le_bytes,
}
use heliondb.Error.{Result, ok, err, ◌>>=◌}
use heliondb.Table.{Table}
use heliondb.Wal.{WalRecord, replay}
use heliondb.Wal.Frames.{
  Next, frame, body_at, next_frame, append, parse, replay_from, replay_wal_buf,
}

pub length-frame : (bytes : List ℕ) (sum : ℕ) → length (frame bytes sum) ≡ length bytes + 12
unfolding frame
length-frame bytes sum = omega (
  arith,
  length-append (le_bytes 8 (length bytes)) (bytes ++ le_bytes 4 sum),
  length-append bytes (le_bytes 4 sum),
  length-le_bytes 8 (length bytes),
  length-le_bytes 4 sum,
)

-- A whole frame is found, with the bytes behind it.
body_at-frame :
    (start : ℕ) (bytes : List ℕ) (sum : ℕ) (later : List ℕ)
    → start + (length bytes + 4) < 2 ^ 64
    → sum < 2 ^ 32
    → body_at (length bytes) start (bytes ++ (le_bytes 4 sum ++ later))
      ≡ Next.found bytes sum (start + length bytes + 4) later
unfolding body_at
body_at-frame start bytes sum later h s =
    let whole : (start + length bytes) % 2 ^ 64 ≡ start + length bytes = omega arith in
    let size : start + length bytes - start ≡ length bytes = omega arith in
    rw (whole, size)
      (rw
        (
          take-append bytes (le_bytes 4 sum ++ later),
          drop-append bytes (le_bytes 4 sum ++ later),
          take-le_bytes 4 sum later,
          drop-le_bytes 4 sum later,
          from_le_bytes-le_bytes 4 sum s,
        )
        (ground (
          arith,
          length-append bytes (le_bytes 4 sum ++ later),
          length-append (le_bytes 4 sum) later,
          length-le_bytes 4 sum,
        )))

pub next_frame-frame :
    (offset : ℕ) (bytes : List ℕ) (sum : ℕ) (later : List ℕ)
    → offset + (length bytes + 12) < 2 ^ 64
    → sum < 2 ^ 32
    → next_frame offset (frame bytes sum ++ later)
      ≡ Next.found bytes sum (offset + (length bytes + 12)) later
unfolding next_frame frame
next_frame-frame offset bytes sum later h s =
    rw (append_assoc (le_bytes 8 (length bytes)) (bytes ++ le_bytes 4 sum) later) (
      rw (append_assoc bytes (le_bytes 4 sum) later) (
        rw
          (
            take-le_bytes 8 (length bytes) (bytes ++ (le_bytes 4 sum ++ later)),
            drop-le_bytes 8 (length bytes) (bytes ++ (le_bytes 4 sum ++ later)),
            from_le_bytes-le_bytes 8 (length bytes) (omega arith),
          )
          (rw (body_at-frame (offset + 8) bytes sum later (omega arith) s) (
            ground (
              arith,
              length-append (le_bytes 8 (length bytes)) (bytes ++ (le_bytes 4 sum ++ later)),
              length-le_bytes 8 (length bytes),
            )))))

-- Too few bytes for a length, or for the record that the length announces: what is left of a frame
-- that was not written to its end.
abbrev pub IsCut : ℕ → List ℕ → Type 0
IsCut offset tail =
    (length tail < 8)
    ⊎ ((n : ℕ) × (rest : List ℕ) × (tail ≡ le_bytes 8 n ++ rest)
        × (length rest < n + 4)
        × (offset + (n + 12) < 2 ^ 64))

next_frame-cut :
    (offset : ℕ) (tail : List ℕ) → IsCut offset tail → next_frame offset tail ≡ Next.stop
unfolding next_frame body_at
next_frame-cut offset tail (inl short) = ground arith
next_frame-cut offset tail (inr (n, rest, e, short, h)) = rw e (
    rw (take-le_bytes 8 n rest, drop-le_bytes 8 n rest, from_le_bytes-le_bytes 8 n (omega arith))
      (ground arith))

-- The bytes of a log: frames, each of bytes and a stored checksum, and a tail.
abbrev pub frames : List (List ℕ × ℕ) → List ℕ → List ℕ
frames [] tail = tail
frames ((bytes, sum) ∷ chunks) tail = frame bytes sum ++ frames chunks tail

frames-tail :
    (chunks : List (List ℕ × ℕ)) (tail : List ℕ) → frames chunks [] ++ tail ≡ frames chunks tail
frames-tail [] tail = refl
frames-tail ((bytes, sum) ∷ chunks) tail =
    append_assoc (frame bytes sum) (frames chunks []) tail
    ∙ ap (λ l. frame bytes sum ++ l) (frames-tail chunks tail)

pub chunks_fit :
    (chunks : List (List ℕ × ℕ)) (tail : List ℕ)
    → length chunks + length tail ≤ length (frames chunks tail)
chunks_fit [] tail = omega arith
chunks_fit ((bytes, sum) ∷ chunks) tail = omega (
  arith,
  chunks_fit chunks tail,
  length-append (frame bytes sum) (frames chunks tail),
  length-frame bytes sum,
)

module _ (serialize : WalRecord → Result (List ℕ)) (deserialize : List ℕ → Option WalRecord)
    (hash : List ℕ → ℕ) where
  -- The records of the frames that have the right checksum and can be read.
  abbrev pub readable : List (List ℕ × ℕ) → List WalRecord
  readable [] = []
  readable ((bytes, sum) ∷ chunks) =
      let rest = readable chunks in
      if hash bytes == sum
      then (elim (deserialize bytes) [ none ↦ rest | some r ↦ r ∷ rest ])
      else rest

  replay_from-frames :
      (fuel offset : ℕ) (chunks : List (List ℕ × ℕ)) (tail : List ℕ)
      → length chunks ≤ fuel
      → offset + length (frames chunks []) + length tail < 2 ^ 64
      → All (λ c. c.1 < 2 ^ 32) chunks
      → IsCut (offset + length (frames chunks [])) tail
      → replay_from serialize deserialize hash fuel offset (frames chunks tail)
        ≡ some (readable chunks)
  unfolding replay_from parse
  replay_from-frames zero offset [] tail le h s cut = refl
  replay_from-frames zero offset (c ∷ chunks) tail le h s cut = absurd (omega arith)
  replay_from-frames (suc fuel) offset [] tail le h s cut =
      rw (replay_from, next_frame-cut offset tail (subst (λ n. IsCut n tail) (omega arith) cut))
        refl
  replay_from-frames (suc fuel) offset ((bytes, sum) ∷ chunks) tail le h s cut =
      let size : length (frames ((bytes, sum) ∷ chunks) [])
          ≡ length bytes + 12 + length (frames chunks []) =
        omega (arith, length-append (frame bytes sum) (frames chunks []), length-frame bytes sum) in
      let rest : replay_from serialize deserialize hash fuel (offset + (length bytes + 12))
            (frames chunks tail)
          ≡ some (readable chunks) =
        replay_from-frames fuel (offset + (length bytes + 12)) chunks tail (omega arith)
          (omega (arith, size)) s.1 (subst (λ n. IsCut n tail) (omega (arith, size)) cut) in
      rw
        (
          replay_from,
          next_frame-frame offset bytes sum (frames chunks tail) (omega (arith, size)) s.0,
        )
        (rw rest (ground arith))

  -- The replay of a log: of its frames exactly those are read that have the right checksum and can
  -- be read, in order, the others are passed over, and an incomplete frame at the end is left out.
  -- The tables are those that the records read make. The log is shorter than 2^64 bytes.
  pub replay_wal_buf-frames :
      (tables : List Table) (chunks : List (List ℕ × ℕ)) (tail : List ℕ)
      → length (frames chunks []) + length tail < 2 ^ 64
      → All (λ c. c.1 < 2 ^ 32) chunks
      → IsCut (length (frames chunks [])) tail
      → replay_wal_buf serialize deserialize hash tables (frames chunks tail)
        ≡ some (replay tables (readable chunks), readable chunks)
  unfolding replay_wal_buf
  replay_wal_buf-frames tables chunks tail h s cut =
      rw
        (
          replay_wal_buf,
          replay_from-frames (length (frames chunks tail)) 0 chunks tail
              (omega (arith, chunks_fit chunks tail)) (omega arith) s
              (subst (λ n. IsCut n tail) (omega arith) cut),
        )
        refl

  -- What the code relies on of the crates: a record is read back from its own bytes, and a checksum
  -- has 32 bits.
  pub record IsCodec : Type 0 where
    pub reads :
        (r : WalRecord) (bytes : List ℕ) → serialize r ≡ ok bytes → deserialize bytes ≡ some r
    pub checksum_bound : (bytes : List ℕ) → hash bytes < 2 ^ 32

  -- Records appended one after the other, as long as all can be written.
  abbrev pub append_all : List ℕ → List WalRecord → Result (List ℕ)
  append_all log [] = ok log
  append_all log (r ∷ records) =
      append serialize deserialize hash log r >>= λ longer. append_all longer records

  abbrev chunk : List ℕ → List ℕ × ℕ
  chunk bytes = (bytes, hash bytes)

  -- What the log holds after the records: their frames, which are read as these records.
  abbrev Logged : List ℕ → List WalRecord → List ℕ → Type 0
  Logged log records longer =
      (chunks : List (List ℕ × ℕ)) × (longer ≡ log ++ frames chunks [])
      × All (λ c. c.1 < 2 ^ 32) chunks
      × (readable chunks ≡ records)

  appended_one :
      (codec : IsCodec) (log : List ℕ) (r : WalRecord) (records : List WalRecord) (longer : List ℕ)
      (written : Result (List ℕ))
      → serialize r ≡ written
      → append_all log (r ∷ records) ≡ ok longer
      → (bytes : List ℕ) × (serialize r ≡ ok bytes)
        × (append_all (log ++ frame bytes (hash bytes)) records ≡ ok longer)
  unfolding append
  appended_one codec log r records longer (ok bytes) w h = (bytes, w, ground arith)
  appended_one codec log r records longer (err e) w h = absurd (ground arith)

  readable-chunk :
      (codec : IsCodec) (r : WalRecord) (bytes : List ℕ) (chunks : List (List ℕ × ℕ))
      → serialize r ≡ ok bytes
      → readable (chunk bytes ∷ chunks) ≡ r ∷ readable chunks
  unfolding parse
  readable-chunk codec r bytes chunks w = ground (arith, codec.reads r bytes w)

  append_all-Logged :
      (codec : IsCodec) (records : List WalRecord) (log longer : List ℕ)
      → append_all log records ≡ ok longer
      → Logged log records longer
  append_all-Logged codec [] log longer h = ([], ground (arith, append-nil log), tt, refl)
  append_all-Logged codec (r ∷ records) log longer h =
      let (bytes, w, next) = appended_one codec log r records longer (serialize r) refl h in
      let (chunks, e, small, read) =
        append_all-Logged codec records (log ++ frame bytes (hash bytes)) longer next in
      (
        chunk bytes ∷ chunks,
        e ∙ append_assoc log (frame bytes (hash bytes)) (frames chunks []),
        (codec.checksum_bound bytes, small),
        readable-chunk codec r bytes chunks w ∙ ap (◌∷◌ r) read,
      )

  replay-Logged :
      (tables : List Table) (records : List WalRecord) (log tail : List ℕ)
      → Logged [] records log
      → length log + length tail < 2 ^ 64
      → IsCut (length log) tail
      → replay_wal_buf serialize deserialize hash tables (log ++ tail)
        ≡ some (replay tables records, records)
  replay-Logged tables records log tail (chunks, e, sums, read) small cut =
      ap (λ bytes. replay_wal_buf serialize deserialize hash tables bytes)
        (ap (λ l. l ++ tail) e ∙ frames-tail chunks tail)
      ∙ replay_wal_buf-frames tables chunks tail
          (subst (λ l. length l + length tail < 2 ^ 64) e small) sums
          (subst (λ l. IsCut (length l) tail) e cut)
      ∙ ap (λ rs. some (replay tables rs, rs)) read

  -- Records appended to an empty log, which may then be cut off within one more frame, are all read
  -- back by the replay, in order, and nothing else; and the tables are those that they make. The
  -- serialisation is assumed to be readable, checksums to have 32 bits, and the log to be shorter
  -- than 2^64 bytes.
  pub replay-append_all :
      (codec : IsCodec) (tables : List Table) (records : List WalRecord) (log tail : List ℕ)
      → append_all [] records ≡ ok log
      → length log + length tail < 2 ^ 64
      → IsCut (length log) tail
      → replay_wal_buf serialize deserialize hash tables (log ++ tail)
        ≡ some (replay tables records, records)
  replay-append_all codec tables records log tail h small cut =
      replay-Logged tables records log tail (append_all-Logged codec records [] log h) small cut
