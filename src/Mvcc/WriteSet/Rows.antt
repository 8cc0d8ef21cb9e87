-- ===== src/Mvcc/WriteSet/Rows.antt =====
-- storage/mvcc.rs: the chains of single rows under a write set that changes each row at most once.
use heliondb.Base.{
  ℕ, String, zero, suc, ◌<◌, true, Option, none, some, List, [], ◌∷◌, ◌++◌, ◌≡◌, refl, ap, ◌∙◌,
  arith, if◌then◌else◌, ◌==◌, get_elem?, set, length, length-set,
}
use heliondb.Base.Text.{str_eq}
use heliondb.Table.{Table, Chain, RowVersion, close_last}
use heliondb.Table.Write.{WriteEntry}
use heliondb.Mvcc.{Tables}
use heliondb.Table.Visible.{Within}
use heliondb.Mvcc.WriteSet.{
  Change, write_chain, apply_changes, changes_for, names_table, new_chains, apply_write_set,
}

-- The version that the changes have for a row.
abbrev pub change_at : ℕ → List Change → Option RowVersion
change_at i [] = none
change_at i ((j, v) ∷ changes) = if j == i then some v else change_at i changes

-- A chain with one more version.
abbrev pub extended : ℕ → Option RowVersion → Option Chain → Option Chain
extended tx_id none c = c
extended tx_id (some v) none = none
extended tx_id (some v) (some chain) = some (close_last tx_id chain ++ v ∷ [])

pub change_below :
    (i l n : ℕ) (changes : List Change) → i < l → Within l n changes → change_at i changes ≡ none
change_below i l n [] h k = refl
change_below i l n ((j, v) ∷ changes) h k = ground (arith, change_below i (suc j) n changes)

get_elem?-set {ℓ} :
    {A : Type ℓ} (xs : List A) (j i : ℕ) (v : A)
    → j < length xs
    → get_elem? (set xs j v) i ≡ (if j == i then some v else get_elem? xs i)
get_elem?-set [] j i v h = absurd (omega arith)
get_elem?-set (x ∷ xs) zero zero v h = ground arith
get_elem?-set (x ∷ xs) zero (suc i) v h = ground arith
get_elem?-set (x ∷ xs) (suc j) zero v h = ground arith
get_elem?-set (x ∷ xs) (suc j) (suc i) v h = ground (arith, get_elem?-set xs j i v)

pub get_elem?-lt {ℓ} :
    {A : Type ℓ} (xs : List A) (i : ℕ) → i < length xs → (x : A) × (get_elem? xs i ≡ some x)
get_elem?-lt [] i h = absurd (omega arith)
get_elem?-lt (x ∷ xs) zero h = (x, refl)
get_elem?-lt (x ∷ xs) (suc i) h = get_elem?-lt xs i (omega arith)

length-write_chain :
    (tx_id j : ℕ) (v : RowVersion) (chains : List Chain)
    → j < length chains
    → length (write_chain tx_id v chains j (get_elem? chains j)) ≡ length chains
unfolding write_chain
length-write_chain tx_id j v chains h =
    let (c, e) = get_elem?-lt chains j h in
    rw e (length-set chains j (close_last tx_id c ++ v ∷ []))

-- A write to a row that is there changes its chain and no other.
write_chain-get :
    (tx_id j i : ℕ) (v : RowVersion) (chains : List Chain)
    → j < length chains
    → get_elem? (write_chain tx_id v chains j (get_elem? chains j)) i
      ≡ (if j == i then extended tx_id (some v) (get_elem? chains i) else get_elem? chains i)
unfolding write_chain
write_chain-get tx_id j i v chains h =
    let (c, e) = get_elem?-lt chains j h in
    rw e (ground (arith, get_elem?-set chains j i (close_last tx_id c ++ v ∷ [])))

-- Changes of rows that are there, each row at most once: every row has its chain with the version
-- that the changes have for it, and its own chain where they have none.
pub apply_changes-get :
    (tx_id l n i : ℕ) (chains : List Chain) (changes : List Change)
    → length chains ≡ n
    → Within l n changes
    → get_elem? (apply_changes tx_id chains changes) i
      ≡ extended tx_id (change_at i changes) (get_elem? chains i)
unfolding apply_changes
apply_changes-get tx_id l n i chains [] e h = refl
apply_changes-get tx_id l n i chains ((j, v) ∷ changes) e h =
    let k : j < length chains = omega (arith, h.1) in
    let next = write_chain tx_id v chains j (get_elem? chains j) in
    apply_changes-get tx_id (suc j) n i next changes (length-write_chain tx_id j v chains k ∙ e) h.2
    ∙ ap (extended tx_id (change_at i changes)) (write_chain-get tx_id j i v chains k)
    ∙ ground (arith, change_below i (suc j) n changes)

-- A write set for one table, at this table.
pub apply_write_set-one :
    (tables : Tables) (tx_id : ℕ) (name : String) (t : Table) (e : WriteEntry)
    (entries : List WriteEntry)
    → str_eq e.table_name name ≡ true
    → tables name ≡ some t
    → apply_write_set (e ∷ entries) tables tx_id name
      ≡ some (apply_changes tx_id t.version_chains (changes_for tables tx_id name (e ∷ entries)))
unfolding apply_write_set names_table new_chains
apply_write_set-one tables tx_id name t e entries h k = rw (h, k) refl
