-- ===== src/Wal/Frames.antt =====
-- storage/wal.rs: the records as frames in a file, `append` and `replay_wal_buf`.
pub mod Roundtrip
pub mod Rounds
mod Tests
use heliondb.Base.{
  ℕ, zero, suc, ◌+◌, ◌-◌, ◌%◌, ◌^◌, Bool, true, false, ◌||◌, Option, none, some, List, [], ◌∷◌,
  ◌++◌, if◌then◌else◌, ltb, ◌==◌, length,
}
use heliondb.Base.Bytes.{take, drop, le_bytes, from_le_bytes}
use heliondb.Error.{Result, ok, err, ◌>>=◌}
use heliondb.Table.{Table}
use heliondb.Wal.{WalRecord, replay}

-- Length in 8 bytes, the record, its checksum in 4 bytes.
pub frame : List ℕ → ℕ → List ℕ
frame bytes checksum = le_bytes 8 (length bytes) ++ (bytes ++ le_bytes 4 checksum)

-- What a round of the loop of `replay_wal_buf` finds at an offset: the end of the log, a slice out
-- of bounds, or a frame with its stored checksum, the next offset and the bytes from there.
pub data Next : Type 0 where
  stop panic : Next
  found : List ℕ → ℕ → ℕ → List ℕ → Next

-- The record that starts at `start`, where `body` is what the buffer holds from there. The sums are
-- those of `usize`, with its wrap-around; a length that wraps can pass the first test, and then the
-- slice that it denotes is out of bounds.
pub body_at : ℕ → ℕ → List ℕ → Next
body_at record_len start body =
    let finish = (start + record_len) % 2 ^ 64 in
    if ltb (start + length body) ((start + record_len + 4) % 2 ^ 64)
    then Next.stop
    else if ltb finish start || ltb (start + length body) finish
    then Next.panic
    else (let rest = drop (finish - start) body in
        Next.found (take (finish - start) body) (from_le_bytes (take 4 rest)) (finish + 4)
          (drop 4 rest))

-- The buffer from the offset on.
pub next_frame : ℕ → List ℕ → Next
next_frame offset rest =
    if ltb (length rest) 8
    then Next.stop
    else body_at (from_le_bytes (take 8 rest)) (offset + 8) (drop 8 rest)

abbrev pub prepend : Option WalRecord → Option (List WalRecord) → Option (List WalRecord)
prepend parsed none = none
prepend none (some records) = some records
prepend (some r) (some records) = some (r ∷ records)

-- The crate `bincode` as `serialize` and `deserialize`, and the crate `crc32fast` as `hash`.
module _ (serialize : WalRecord → Result (List ℕ)) (deserialize : List ℕ → Option WalRecord)
    (hash : List ℕ → ℕ) where
  -- The bytes of the log after a record has been written to its end.
  unfoldable pub append : List ℕ → WalRecord → Result (List ℕ)
  append log r = serialize r >>= λ bytes. ok (log ++ frame bytes (hash bytes))

  -- The record of a frame, if its checksum is right and it can be read.
  pub parse : List ℕ → ℕ → Option WalRecord
  parse bytes checksum = if checksum == hash bytes then deserialize bytes else none

  -- The loop; every round takes bytes away, so there are at most as many as there are bytes.
  pub replay_from : ℕ → ℕ → List ℕ → Option (List WalRecord)
  replay_from zero offset rest = some []
  replay_from (suc fuel) offset rest = elim (next_frame offset rest) [
    | Next.stop ↦ some []
    | Next.panic ↦ none
    | Next.found bytes checksum next later ↦
        prepend (parse bytes checksum) (replay_from fuel next later)
  ]

  -- The tables after the replay, and all records that were read; `none` where the code panics.
  pub replay_wal_buf : List Table → List ℕ → Option (List Table × List WalRecord)
  replay_wal_buf tables buf = elim (replay_from (length buf) 0 buf) [
    | none ↦ none
    | some records ↦ some (replay tables records, records)
  ]
