-- ===== src/Engine/Tests.antt =====
-- The engine on a table of numbers with a unique index, stored by the memory engine.
use heliondb.Base.{ℕ, ◌≡◌, refl, String, Bool, true, false, List, [], ◌∷◌, ◌++◌, none}
use heliondb.Base.Text.{str_eq, concat, eq_ignore_ascii_case}
use heliondb.Types.Datum.{Datum, DataType, is_null}
use heliondb.Types.Order.{cmp}
use heliondb.Types.Column
use heliondb.Types.Column.{Row}
use heliondb.Error.{Result, ok}
use heliondb.Index
use heliondb.Index.{Index, extract_key, insert_entry}
use heliondb.Table.{Table, new_insert, u64_max}
use heliondb.Table.Write.{WriteOp, WriteEntry}
use heliondb.Table.Constraints.{check_unique_constraints, apply_index_changes}
use heliondb.Mvcc.{Transaction, with_start_id, check_conflicts, begin_transaction}
use heliondb.Users
use heliondb.Users.{UserStore}
use heliondb.Permissions
use heliondb.Permissions.{PermissionStore, Permission}
use heliondb.MemoryEngine
use heliondb.MemoryEngine.{MemoryEngine}
use heliondb.Mvcc.WriteSet.{apply_write_set}
use heliondb.Wal.{WalRecord}
use heliondb.Wal.Recovery.{commit_records}
use heliondb.Engine.{
  Engine, check_entries, add_writes, begin, append, append_records, store_tables, update_tables,
  commit,
}
use heliondb.Engine.Commit.{Ended, commit-Ended}
use heliondb.Engine.Installed.{chains_at, expected}
use heliondb.Engine.Chains.{commit-chains}
use heliondb.Engine.Accounts.{
  replay_users_from_wal, replay_permissions_from_wal, create_user, drop_user, alter_user_password,
  grant_permission, revoke_permission,
}
use heliondb.Engine.Accounts.Recovery.{UsersSynced, KeepsUsers, accounts-KeepsUsers}
use heliondb.Engine.Accounts.Grants.{PermissionsSynced, KeepsPermissions, grants-KeepsPermissions}
use heliondb.Engine.Accounts.Lost.{IsLost, alter_user_password-IsLost}

abbrev row : ℕ → Row
row n = record { values = Datum.unsigned_integer n ∷ [] }

abbrev numbers : Table
numbers = record {
  name = "numbers";
  columns = Column.new "n" DataType.unsigned_integer ∷ [];
  version_chains = (new_insert 1 (row 5) ∷ []) ∷ [];
  primary_key_idx = none;
  indexes =
      record {
        meta = record { name = "uq_numbers_n"; columns = 0 ∷ []; is_unique = true };
        entries = (Datum.unsigned_integer 5 ∷ [], 0 ∷ []) ∷ [];
      }
      ∷ [];
}

abbrev account_log : List WalRecord
account_log =
    WalRecord.create_user "ada" "plain:one" ∷ WalRecord.grant "ada" "numbers" Permission.delete ∷ []

abbrev engine : Engine MemoryEngine
engine = record {
  tables = numbers ∷ [];
  storage = record { tables = ("numbers", numbers) ∷ [] };
  mvcc = with_start_id 2;
  log = account_log;
  users = record { users = record { username = "ada"; password_hash = "plain:one" } ∷ [] };
  permissions = record { grants = (("ada", "numbers"), Permission.delete ∷ []) ∷ [] };
  torn = false;
  faults = [];
}

abbrev insertion : ℕ → WriteEntry
insertion n = record {
  table_name = "numbers";
  row_idx = 1;
  old_txid_max = u64_max;
  operation = WriteOp.insert (row n);
}

abbrev order : List String
order = "numbers" ∷ []

abbrev writer : Engine MemoryEngine → List WriteEntry → Transaction
writer e entries = add_writes (begin e).0 entries

commit-Ended_example :
    Ended engine
      (writer engine (insertion 6 ∷ []))
      (commit MemoryEngine.apply_write_set order order engine (writer engine (insertion 6 ∷ [])))
commit-Ended_example =
    commit-Ended MemoryEngine.apply_write_set order order engine (writer engine (insertion 6 ∷ []))

abbrev plain_hash : String → String → Result String
plain_hash password salt = ok (concat "plain:" password)

abbrev matches : String → String → Bool
matches hash password = str_eq hash (concat "plain:" password)

abbrev same : String → String
same name = name

engine-UsersSynced : UsersSynced engine
unfolding replay_users_from_wal Users.insert_user
engine-UsersSynced = refl

engine-PermissionsSynced : PermissionsSynced same engine
unfolding replay_permissions_from_wal Permissions.grant
engine-PermissionsSynced = refl

accounts-KeepsUsers_example :
    KeepsUsers (create_user plain_hash matches "salt" engine "bob" "two")
    × KeepsUsers (drop_user same engine "bob")
accounts-KeepsUsers_example =
    accounts-KeepsUsers plain_hash matches same "salt" engine "bob" "two" engine-UsersSynced

grants-KeepsPermissions_example :
    KeepsPermissions same (grant_permission same engine "ada" "numbers" Permission.all)
    × KeepsPermissions same (revoke_permission same engine "ada" "numbers" Permission.all)
grants-KeepsPermissions_example =
    grants-KeepsPermissions same engine "ada" "numbers" Permission.all engine-PermissionsSynced

abbrev altered : Engine MemoryEngine
altered = record engine {
  log = account_log ++ WalRecord.create_user "ada" "plain:two" ∷ [];
  users = record { users = record { username = "ada"; password_hash = "plain:two" } ∷ [] };
}

password_altered :
    alter_user_password plain_hash matches "salt" engine "ada" "two" ≡ (altered, ok tt)
unfolding alter_user_password Users.update_password append eq_ignore_ascii_case
password_altered = refl

alter_user_password-IsLost_example : IsLost plain_hash matches engine altered "salt" "ada" "two"
alter_user_password-IsLost_example =
    alter_user_password-IsLost plain_hash matches engine altered "salt" "ada" "two" password_altered
      engine-UsersSynced

abbrev without_ada : Engine MemoryEngine
without_ada = record engine {
  log = account_log ++ WalRecord.drop_user "ada" ∷ [];
  users = record { users = [] };
  permissions = record { grants = [] };
}

ada_dropped : drop_user same engine "ada" ≡ (without_ada, ok tt)
unfolding drop_user Users.drop_user append eq_ignore_ascii_case Permissions.remove_user
ada_dropped = refl

abbrev inserter : Transaction
inserter = writer engine (insertion 6 ∷ [])

abbrev outcome : (Engine MemoryEngine × Transaction) × Result (Unit {0})
outcome = commit MemoryEngine.apply_write_set order order engine inserter

committed_ok : outcome ≡ ((outcome.0.0, outcome.0.1), ok tt)
unfolding commit check_conflicts check_entries begin begin_transaction add_writes
    check_unique_constraints extract_key is_null Index.get cmp append_records append commit_records
    store_tables MemoryEngine.apply_write_set update_tables apply_write_set apply_index_changes
    Index.insert
committed_ok = refl

commit-chains_example :
    chains_at outcome.0.0.tables "numbers" ≡ expected order inserter engine.tables "numbers"
commit-chains_example =
    commit-chains MemoryEngine.apply_write_set order order engine outcome.0.0 inserter outcome.0.1
      "numbers" committed_ok
