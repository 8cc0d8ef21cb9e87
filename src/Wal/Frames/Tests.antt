-- ===== src/Wal/Frames/Tests.antt =====
-- The replay of concrete logs, with a codec that writes a commit as one byte.
use heliondb.Base.{
  ℕ, ◌+◌, ◌%◌, ◌^◌, ◌≡◌, refl, List, [], ◌∷◌, ◌++◌, Option, none, some, arith, inl, length,
}
use heliondb.Base.Bytes.{le_bytes, from_le_bytes}
use heliondb.Error.{Result, ok, err, internal}
use heliondb.Wal.{WalRecord, replay}
use heliondb.Wal.Frames.{frame, append, replay_from, replay_wal_buf}
use heliondb.Wal.Frames.Roundtrip.{
  IsCodec, append_all, frames, readable, replay_wal_buf-frames, replay-append_all,
}
use heliondb.Wal.Frames.Rounds.{replay_from_enough}

abbrev serialize : WalRecord → Result (List ℕ)
serialize (WalRecord.commit txid) = ok (txid ∷ [])
serialize _ = err (internal [])

abbrev deserialize : List ℕ → Option WalRecord
deserialize (txid ∷ []) = some (WalRecord.commit txid)
deserialize _ = none

abbrev checksum : List ℕ → ℕ
checksum bytes = from_le_bytes bytes % 2 ^ 32

serialize-IsCodec : IsCodec serialize deserialize checksum
serialize-IsCodec = record { reads = reads; checksum_bound = λ bytes. omega arith }
  where
    reads : (r : WalRecord) (bytes : List ℕ) → serialize r ≡ ok bytes → deserialize bytes ≡ some r
    reads (WalRecord.commit txid) bytes h = ground arith
    reads _ bytes h = absurd (cc h)

abbrev two_commits : List WalRecord
two_commits = WalRecord.commit 1 ∷ WalRecord.commit 2 ∷ []

-- The second checksum is wrong.
abbrev chunks : List (List ℕ × ℕ)
chunks = (1 ∷ [], 1) ∷ (2 ∷ [], 5) ∷ []

abbrev log : List ℕ
log = frame (1 ∷ []) 1 ++ frame (2 ∷ []) 2

log_written : append_all serialize deserialize checksum [] two_commits ≡ ok log
unfolding append from_le_bytes
log_written = refl

log_size : length log ≡ 26
unfolding frame le_bytes
log_size = refl

chunks_size : length (frames chunks []) ≡ 26
unfolding frame le_bytes
chunks_size = refl

replay-append_all_example :
    replay_wal_buf serialize deserialize checksum [] (log ++ 9 ∷ 0 ∷ [])
    ≡ some (replay [] two_commits, two_commits)
replay-append_all_example =
    replay-append_all serialize deserialize checksum serialize-IsCodec [] two_commits log
      (9 ∷ 0 ∷ []) log_written (omega (arith, log_size)) (inl (omega arith))

replay_wal_buf-frames_example :
    replay_wal_buf serialize deserialize checksum [] (frames chunks (9 ∷ 0 ∷ []))
    ≡ some (
      replay [] (readable serialize deserialize checksum chunks),
      readable serialize deserialize checksum chunks,
    )
replay_wal_buf-frames_example =
    replay_wal_buf-frames serialize deserialize checksum [] chunks (9 ∷ 0 ∷ [])
      (omega (arith, chunks_size)) (omega arith, (omega arith, tt)) (inl (omega arith))

replay_from_enough_example :
    replay_from serialize deserialize checksum (length log + 7) 0 log
    ≡ replay_from serialize deserialize checksum (length log) 0 log
replay_from_enough_example = replay_from_enough serialize deserialize checksum 7 0 log
