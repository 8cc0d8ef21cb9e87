-- ===== src/Table/Tests.antt =====
-- The laws of tables at a concrete table of users.
use heliondb.Base.{ℕ, ◌≡◌, refl, true, false, List, [], ◌∷◌, ◌++◌, arith, none, some, All, String}
use heliondb.Types.Datum.{Datum, DataType, is_null}
use heliondb.Types.Order.{cmp}
use heliondb.Types.Column
use heliondb.Types.Column.{ColumnMeta, Row}
use heliondb.Types.Coerce.{coerce_datum}
use heliondb.Error.{ok}
use heliondb.Index
use heliondb.Index.{Index, new_unique, extract_key, insert_entry}
use heliondb.Index.Laws.{holds}
use heliondb.Index.Unique.{IsValid, insert-IsValid}
use heliondb.Table.{
  Table, Chain, new_insert, new_update, new_delete, latest_visible, scan_visible,
  get_visible_version, close_last,
}
use heliondb.Table.Visible.{row_of, row_at, Ascends, scan_visible-row_at}
use heliondb.Table.Chain.{supersede_later}
use heliondb.Table.Anomaly.{superseded_row_vanishes}
use heliondb.Table.Indexes.{rebuild_indexes}
use heliondb.Table.Indexes.Rebuild.{Reflects, rebuild_indexes-Reflects}
use heliondb.Table.Constraints.{is_null_key, check_unique_constraints}

abbrev row : Datum → String → Row
row email name = record { values = email ∷ Datum.text name ∷ [] }

abbrev columns : List ColumnMeta
columns = Column.new "email" DataType.text ∷ Column.new "name" (DataType.var_char (some 20)) ∷ []

-- The first version is by transaction 3, the second by transaction 7.
abbrev chain : Chain
chain =
    record (new_insert 3 (row (Datum.text "a@x") "ada")) { txid_max = 7 }
    ∷ new_update 7 (row (Datum.text "a@x") "Ada")
    ∷ []

supersede_later_example :
    row_of (latest_visible (close_last 9 chain ++ new_delete 9 (row Datum.null "Ada") ∷ []) 8 [])
    ≡ row_of (latest_visible chain 8 [])
supersede_later_example =
    supersede_later chain (new_delete 9 (row Datum.null "Ada")) 8 [] (refl, refl) (omega arith)

superseded_row_vanishes_example :
    latest_visible (close_last 9 chain ++ new_update 9 (row Datum.null "Ada") ∷ []) 12 (9 ∷ [])
    ≡ none
superseded_row_vanishes_example =
    superseded_row_vanishes 12 (9 ∷ []) chain (new_update 9 (row Datum.null "Ada")) (refl, refl)
      (omega arith, (omega arith, tt)) (omega arith) (omega arith) refl

abbrev empty_index : Index
empty_index = new_unique "uq_users_email" (0 ∷ [])

empty_index-IsValid : IsValid empty_index
unfolding holds Index.get
empty_index-IsValid = record { sorted = tt; unique = λ k r q u h g. absurd (cc h) }

abbrev email_index : Index
email_index = insert_entry empty_index (Datum.null ∷ []) 0

email_index-IsValid : IsValid email_index
unfolding Index.insert insert_entry
email_index-IsValid =
    insert-IsValid empty_index email_index (Datum.null ∷ []) 0 refl empty_index-IsValid

email_index_unique : email_index.meta.is_unique ≡ true
unfolding insert_entry
email_index_unique = refl

null_key : is_null_key (extract_key email_index (row Datum.null "bob")) ≡ true
unfolding extract_key is_null insert_entry
null_key = refl

null_held : holds email_index (extract_key email_index (row Datum.null "bob")) 0 ≡ true
unfolding holds Index.get insert_entry extract_key cmp
null_held = refl

abbrev users : Table
users = record {
  name = "users";
  columns = columns;
  version_chains = (new_insert 3 (row Datum.null "ada") ∷ []) ∷ [];
  primary_key_idx = none;
  indexes = email_index ∷ [];
}

checked : check_unique_constraints users true 1 (row (Datum.text "b@x") "bob") ≡ ok tt
unfolding check_unique_constraints insert_entry extract_key is_null Index.get cmp
checked = refl

key_is_not_null : is_null_key (extract_key email_index (row (Datum.text "b@x") "bob")) ≡ false
unfolding extract_key insert_entry is_null
key_is_not_null = refl

rebuild_indexes-Reflects_example : All (Reflects users) (rebuild_indexes users).indexes
rebuild_indexes-Reflects_example = rebuild_indexes-Reflects users

name_coerced :
    coerce_datum (λ _. 0) (Datum.text "bob") (DataType.var_char (some 20))
    ≡ ok (Datum.var_char "bob")
unfolding coerce_datum
name_coerced = refl

scan_visible-row_at_example :
    Ascends 0 (scan_visible users 8 (5 ∷ []))
    × ((i : ℕ)
        → row_at i (scan_visible users 8 (5 ∷ []))
          ≡ row_of (get_visible_version users i 8 (5 ∷ [])))
scan_visible-row_at_example = scan_visible-row_at users 8 (5 ∷ [])
