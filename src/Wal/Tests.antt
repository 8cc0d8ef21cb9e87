-- ===== src/Wal/Tests.antt =====
-- Recovery of concrete commits.
use heliondb.Base.{ℕ, ◌≡◌, refl, List, [], ◌∷◌, ◌++◌, none, some, get_elem?, length}
use heliondb.Types.Datum.{Datum, DataType, is_null, data_type}
use heliondb.Types.Column
use heliondb.Types.Column.{Row, ColumnMeta}
use heliondb.Error.{ok}
use heliondb.Table.{Table, Chain, new_insert, close_last, u64_max, row_count}
use heliondb.Table.Validate.{validate_row, types_compatible}
use heliondb.Table.Write.{WriteOp, WriteEntry}
use heliondb.Mvcc.WriteSet.{write_chain, changes_for, apply_write_set}
use heliondb.Wal.{replay}
use heliondb.Wal.Recovery.{
  commit_records, table_at, committed, AllReplayable, replay-commit_records,
}
use heliondb.Wal.Recovery.Divergence.{taken_insert_diverges}

abbrev row : ℕ → Row
row n = record { values = Datum.unsigned_integer n ∷ [] }

abbrev columns : List ColumnMeta
columns = Column.new "n" DataType.unsigned_integer ∷ []

abbrev chain : Chain
chain = new_insert 3 (row 1) ∷ []

abbrev counters : Table
counters = record {
  name = "counters";
  columns = columns;
  version_chains = chain ∷ [];
  primary_key_idx = none;
  indexes = [];
}

abbrev tables : List Table
tables = counters ∷ []

abbrev entry : ℕ → WriteOp → WriteEntry
entry idx op = record {
  table_name = "counters";
  row_idx = idx;
  old_txid_max = u64_max;
  operation = op;
}

abbrev entries : List WriteEntry
entries = entry 1 (WriteOp.insert (row 2)) ∷ entry 0 WriteOp.delete ∷ []

valid : validate_row counters (row 2) ≡ ok tt
unfolding validate_row is_null types_compatible data_type
valid = refl

replayable : AllReplayable (table_at tables) 8 "counters" entries counters
unfolding write_chain
replayable = ((valid, refl), (refl, tt))

replay-commit_records_example :
    table_at (replay tables (commit_records 8 entries)) "counters"
    ≡ some (committed 8 counters (changes_for (table_at tables) 8 "counters" entries))
replay-commit_records_example =
    replay-commit_records (table_at tables) 8 "counters" entries tables counters refl replayable

taken_insert_diverges_example :
    (chains : List Chain) × (u : Table) × (apply_write_set
        (entry 0 (WriteOp.insert (row 2)) ∷ [])
        (table_at tables)
        8
        "counters"
      ≡ some chains)
    × (get_elem? chains 0 ≡ some (close_last 8 chain ++ new_insert 8 (row 2) ∷ []))
    × (length chains ≡ 1)
    × (table_at
          (replay tables (commit_records 8 (entry 0 (WriteOp.insert (row 2)) ∷ [])))
          "counters"
        ≡ some u)
    × (row_count u ≡ 2)
taken_insert_diverges_example =
    taken_insert_diverges tables (entry 0 (WriteOp.insert (row 2))) counters (row 2) chain 8 refl
      refl refl valid
