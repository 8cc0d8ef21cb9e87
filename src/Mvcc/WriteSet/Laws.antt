-- ===== src/Mvcc/WriteSet/Laws.antt =====
-- A committed write set keeps every chain linked, and starts no chain without a version.
use heliondb.Base.{
  ℕ, zero, suc, String, Option, none, some, List, [], ◌∷◌, ◌++◌, ◌≡◌, ◌≢◌, refl, arith, get_elem?,
  All, All-append, set,
}
use mathlib.Core.Path.{subst}
use heliondb.Table.{Table, Chain, RowVersion, u64_max, close_last}
use heliondb.Table.Chain.{IsLinked, supersede-IsLinked}
use heliondb.Table.Write.{WriteEntry}
use heliondb.Mvcc.{Tables}
use heliondb.Mvcc.WriteSet.{Change, write_chain, apply_changes, changes_for, apply_write_set}

-- A chain with a version, every version but the last ended by its successor's creator.
abbrev pub IsWellFormed : Chain → Type 0
IsWellFormed c = (c ≢ []) × IsLinked c

-- A version made by the transaction, with no end.
abbrev pub IsNew : ℕ → RowVersion → Type 0
IsNew tx_id v = (v.txid_min ≡ tx_id) × (v.txid_max ≡ u64_max)

snoc-nonempty {ℓ} : {A : Type ℓ} (xs : List A) (x : A) → (xs ++ x ∷ []) ≢ []
snoc-nonempty [] x e = cc
snoc-nonempty (y ∷ ys) x e = cc

All-set :
    (P : Chain → Type 0) (chains : List Chain) (i : ℕ) (c : Chain)
    → All P chains
    → P c
    → All P (set chains i c)
All-set P [] i c h k = tt
All-set P (d ∷ chains) zero c h k = (k, h.1)
All-set P (d ∷ chains) (suc i) c h k = (h.0, All-set P chains i c h.1 k)

All-get :
    (P : Chain → Type 0) (chains : List Chain) (i : ℕ) (c : Chain)
    → All P chains
    → get_elem? chains i ≡ some c
    → P c
All-get P [] i c h e = cc
All-get P (d ∷ chains) zero c h e = ground (arith, h.0)
All-get P (d ∷ chains) (suc i) c h e = All-get P chains i c h.1 e

write_chain-IsWellFormed :
    (tx_id : ℕ) (v : RowVersion) (chains : List Chain) (i : ℕ) (found : Option Chain)
    → IsNew tx_id v
    → All IsWellFormed chains
    → get_elem? chains i ≡ found
    → All IsWellFormed (write_chain tx_id v chains i found)
unfolding write_chain
write_chain-IsWellFormed tx_id v chains i none n h e =
    All-append IsWellFormed chains ((v ∷ []) ∷ []) h ((λ e. cc, n.1), tt)
write_chain-IsWellFormed tx_id v chains i (some c) n h e =
    All-set IsWellFormed chains i (close_last tx_id c ++ v ∷ []) h (
      snoc-nonempty (close_last tx_id c) v,
      subst (λ x. IsLinked (close_last x c ++ v ∷ [])) n.0
          (supersede-IsLinked c v n.1 (All-get IsWellFormed chains i c h e).1),
    )

apply_changes-IsWellFormed :
    (tx_id : ℕ) (chains : List Chain) (changes : List Change)
    → All (λ c. IsNew tx_id c.1) changes
    → All IsWellFormed chains
    → All IsWellFormed (apply_changes tx_id chains changes)
unfolding apply_changes
apply_changes-IsWellFormed tx_id chains [] n h = h
apply_changes-IsWellFormed tx_id chains ((i, v) ∷ changes) n h =
    apply_changes-IsWellFormed tx_id (write_chain tx_id v chains i (get_elem? chains i)) changes n.1
      (write_chain-IsWellFormed tx_id v chains i (get_elem? chains i) n.0 h refl)

changes_for-IsNew :
    (tables : Tables) (tx_id : ℕ) (name : String) (entries : List WriteEntry)
    → All (λ c. IsNew tx_id c.1) (changes_for tables tx_id name entries)
unfolding changes_for
changes_for-IsNew tables tx_id name [] = tt
changes_for-IsNew tables tx_id name (e ∷ entries) =
    ground (arith, changes_for-IsNew tables tx_id name entries)

-- The chains that a write set makes of a table are well-formed if those of the table were.
pub apply_write_set-IsWellFormed :
    (write_set : List WriteEntry) (tables : Tables) (tx_id : ℕ) (name : String) (t : Table)
    (chains : List Chain)
    → tables name ≡ some t
    → All IsWellFormed t.version_chains
    → apply_write_set write_set tables tx_id name ≡ some chains
    → All IsWellFormed chains
unfolding apply_write_set
apply_write_set-IsWellFormed write_set tables tx_id name t chains et h e =
    let kept =
      apply_changes-IsWellFormed tx_id t.version_chains (changes_for tables tx_id name write_set)
        (changes_for-IsNew tables tx_id name write_set) h in
    let eq : apply_changes tx_id t.version_chains (changes_for tables tx_id name write_set)
        ≡ chains =
      ground arith in
    subst (All IsWellFormed) eq kept
