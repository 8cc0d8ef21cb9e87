-- ===== src/Exec/Write/Outcomes.antt =====
-- executor/ops.rs: what a statement that succeeds has been through.
use heliondb.Base.{
  ℕ, suc, String, Option, none, some, List, [], ◌∷◌, ◌≡◌, refl, sym, ap, length, map,
}
use heliondb.Error.{Result, ok, err}
use heliondb.Types.Column.{ColumnMeta, Row}
use heliondb.Table.{Table, Chain, scan_visible}
use heliondb.Table.Visible.{Within, Within-retain, scan_visible-Within}
use heliondb.Mvcc.WriteSet.{Change}
use heliondb.Engine.{Engine}
use heliondb.Engine.Written.{writer_id}
use heliondb.Expr.Syntax.{Expression}
use heliondb.Engine.Installed.{chains_of}
use heliondb.Exec.Query.{QueryResult, Host, read_snapshot}
use heliondb.Exec.Write.{reply, after, selects, selected}

pub reply_ok {ℓ} :
    {E : Type ℓ} (n : ℕ) (o : E × Result (Unit {0})) (g : E) (r : QueryResult)
    → reply n o ≡ (g, ok r)
    → (o ≡ (g, ok tt)) × (n ≡ r.rows_affected)
reply_ok n (e, ok u) g r h = (cc, ap (λ q. affected q.1) h)
  where
    affected : Result QueryResult → ℕ
    affected (ok r) = r.rows_affected
    affected (err x) = n
reply_ok n (e, err x) g r h = absurd (cc h)

pub after_ok {ℓ} :
    {E : Type ℓ} (check : Result (Unit {0})) (e g : E) (next : E × Result QueryResult)
    (r : QueryResult)
    → after check e next ≡ (g, ok r)
    → next ≡ (g, ok r)
after_ok (ok _) e g next r h = h
after_ok (err x) e g next r h = absurd (cc h)

pub length-map {ℓ κ} :
    {A : Type ℓ} {B : Type κ} (f : A → B) (xs : List A) → length (map f xs) ≡ length xs
length-map f [] = refl
length-map f (x ∷ xs) = ap suc (length-map f xs)

pub chains_found :
    (o : Option Table) (chains : List Chain)
    → chains_of o ≡ some chains
    → (t : Table) × (o ≡ some t) × (t.version_chains ≡ chains)
chains_found none chains h = absurd (cc h)
chains_found (some t) chains h = (t, refl, cc)

pub affected-none {ℓ} :
    {E : Type ℓ} (e g : E) (r : QueryResult) → reply 0 (e, ok tt) ≡ (g, ok r) → r.rows_affected ≡ 0
affected-none e g r h = sym (reply_ok 0 (e, ok tt) g r h).1

module _ {S : Type 0} (host : Host) where
  -- The transaction that takes the snapshot ends at once, and that of the changes begins after it.
  abbrev pub change_id : (S → String → List Change → S × Result (Unit {0})) → Engine S → ℕ
  change_id store_changes e = writer_id store_changes (read_snapshot host e).1

  -- The rows that the WHERE clause selects from the snapshot.
  abbrev pub rows_to_change :
      Engine S → Table → Option Expression → List ColumnMeta → List (ℕ × Row)
  rows_to_change e t where_clause columns =
      selected host.runtime (read_snapshot host e).0 t where_clause columns

  pub rows_to_change-Within :
      (e : Engine S) (t : Table) (where_clause : Option Expression) (columns : List ColumnMeta)
      → Within 0 (length t.version_chains) (rows_to_change e t where_clause columns)
  unfolding selected scan_visible
  rows_to_change-Within e t where_clause columns =
      let snapshot = (read_snapshot host e).0 in
      Within-retain (selects host.runtime where_clause columns) 0 (length t.version_chains)
        (scan_visible t snapshot.txid snapshot.active)
        (scan_visible-Within t snapshot.txid snapshot.active)
