-- ===== src/Table/Anomaly.antt =====
-- A commit between a snapshot and its reads: the row that the snapshot should see disappears.
use mathlib.Core.List.{reverse, reverse-append}
use heliondb.Base.{ℕ, ◌≤◌, ◌<◌, true, none, [], ◌∷◌, ◌++◌, ◌≡◌, refl, arith, All, All-append, find?}
use heliondb.Base.NatSet.{NatSet, contains}
use heliondb.Table.{RowVersion, Chain, u64_max, is_version_visible, latest_visible, close_last}
use heliondb.Table.Chain.{IsLinked, latest-snoc}

module _ (s : ℕ) (active : NatSet) where
  -- A version that ended by the time of the snapshot.
  abbrev HasEnded : RowVersion → Type 0
  HasEnded v = v.txid_max ≤ s

  find?-ended :
      (chain : Chain)
      → s < u64_max
      → All HasEnded chain
      → find? (λ v. is_version_visible v s active) chain ≡ none
  unfolding is_version_visible
  find?-ended [] h e = refl
  find?-ended (v ∷ chain) h e = ground (arith, find?-ended chain h e.1)

  All-reverse : (chain : Chain) → All HasEnded chain → All HasEnded (reverse chain)
  All-reverse [] e = tt
  All-reverse (v ∷ chain) e =
      rw (reverse-append (v ∷ []) chain)
        (All-append HasEnded (reverse chain) (v ∷ []) (All-reverse chain e.1) (e.0, tt))

  latest-ended :
      (chain : Chain) → s < u64_max → All HasEnded chain → latest_visible chain s active ≡ none
  unfolding latest_visible
  latest-ended chain h e = rw (find?-ended (reverse chain) h (All-reverse chain e))

  close_last-ended :
      (chain : Chain) (txid : ℕ)
      → txid ≤ s
      → All (λ v. v.txid_min ≤ s) chain
      → IsLinked chain
      → All HasEnded (close_last txid chain)
  unfolding close_last
  close_last-ended [] txid h m l = tt
  close_last-ended (v ∷ []) txid h m l = (h, tt)
  close_last-ended (v ∷ w ∷ []) txid h m l = (omega arith, (h, tt))
  close_last-ended (v ∷ w ∷ x ∷ chain) txid h m l =
      (omega arith, close_last-ended (w ∷ x ∷ chain) txid h m.1 l.1)

  -- A snapshot that began after a transaction, while that transaction was still active, sees no
  -- version of a row at all once the transaction has committed a change of the row: the new
  -- version is hidden since its creator was active, and the old one since its end has passed.
  pub superseded_row_vanishes :
      (chain : Chain) (v : RowVersion)
      → IsLinked chain
      → All (λ w. w.txid_min ≤ s) chain
      → s < u64_max
      → v.txid_min < s
      → contains active v.txid_min ≡ true
      → latest_visible (close_last v.txid_min chain ++ v ∷ []) s active ≡ none
  unfolding is_version_visible
  superseded_row_vanishes chain v l m h lt a =
      rw (latest-snoc (close_last v.txid_min chain) v s active) (
        ground (
          arith,
          latest-ended (close_last v.txid_min chain) h
              (close_last-ended chain v.txid_min (omega arith) m l),
        ))
