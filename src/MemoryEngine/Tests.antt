-- ===== src/MemoryEngine/Tests.antt =====
-- The laws of the memory engine at a concrete one.
use heliondb.Base.{ℕ, ◌≡◌, refl, List, [], ◌∷◌, ◌++◌, none, some, if◌then◌else◌}
use heliondb.Base.Text.{str_eq}
use heliondb.Types.Datum.{Datum, DataType}
use heliondb.Types.Column
use heliondb.Types.Column.{Row, ColumnMeta}
use heliondb.Error.{ok}
use heliondb.Table.{Table, Chain, new_insert, new_update, u64_max, close_last}
use heliondb.Table.Write.{WriteOp, WriteEntry}
use heliondb.Mvcc.{Tables}
use heliondb.Mvcc.WriteSet
use heliondb.Mvcc.WriteSet.{changes_for}
use heliondb.MemoryEngine.{MemoryEngine, find, apply_write_set}
use heliondb.MemoryEngine.Laws.{Sets, apply_write_set-agrees}

abbrev row : ℕ → Row
row n = record { values = Datum.unsigned_integer n ∷ [] }

abbrev chain : Chain
chain = new_insert 3 (row 1) ∷ []

abbrev counters : Table
counters = record {
  name = "counters";
  columns = [];
  version_chains = chain ∷ [];
  primary_key_idx = none;
  indexes = [];
}

abbrev engine : MemoryEngine
engine = record { tables = ("counters", counters) ∷ [] }

abbrev tables : Tables
tables name = if str_eq name "counters" then some counters else none

abbrev update : WriteEntry
update = record {
  table_name = "counters";
  row_idx = 0;
  old_txid_max = u64_max;
  operation = WriteOp.update (row 5);
}

abbrev chains : List Chain
chains = (close_last 8 chain ++ new_update 8 (row 5) ∷ []) ∷ []

made : WriteSet.apply_write_set (update ∷ []) tables 8 "counters" ≡ some chains
unfolding WriteSet.apply_write_set
made = refl

found : find engine "counters" ≡ some counters
unfolding find
found = refl

apply_write_set-agrees_example :
    let (n, result) =
      apply_write_set engine "counters" (changes_for tables 8 "counters" (update ∷ [])) in
    (result ≡ ok tt) × Sets engine "counters" n (some (record counters { version_chains = chains }))
apply_write_set-agrees_example =
    apply_write_set-agrees engine "counters" tables (update ∷ []) 8 counters counters chains refl
      found refl made

abbrev columns : List ColumnMeta
columns = Column.primary_key (Column.new "id" DataType.integer) ∷ []
