-- ===== src/Engine/Accounts.antt =====
-- storage/engine.rs: user accounts and permissions with their log records, and their replay.
pub mod Recovery
pub mod Grants
pub mod Lost
use heliondb.Base.{
  ℕ, String, Bool, true, false, Option, none, some, List, [], ◌∷◌, if◌then◌else◌, any,
}
use heliondb.Base.Text.{eq_ignore_ascii_case}
use heliondb.Error.{HelionError, Result, ok, err, internal, auth, table_not_found, text}
use heliondb.Table.{Table}
use heliondb.Users
use heliondb.Users.{User, UserStore, get_user, user_exists}
use heliondb.Permissions
use heliondb.Permissions.{PermissionStore, Permission}
use heliondb.Wal.{WalRecord}
use heliondb.Engine.{Engine, append, and_then}

-- `let _ = store.…`: a store that refuses stays as it is.
abbrev pub or_same : UserStore → Result UserStore → UserStore
or_same s (ok t) = t
or_same s (err _) = s

pub replay_user : UserStore → WalRecord → UserStore
replay_user s (WalRecord.create_user username hash) =
    or_same s (Users.insert_user s (record { username = username; password_hash = hash }))
replay_user s (WalRecord.drop_user username) = or_same s (Users.drop_user s username)
replay_user s _ = s

pub replay_users : UserStore → List WalRecord → UserStore
replay_users s [] = s
replay_users s (r ∷ records) = replay_users (replay_user s r) records

unfoldable pub replay_users_from_wal : List WalRecord → UserStore
unfolding replay_users replay_user
replay_users_from_wal records = replay_users Users.new records

module _ (to_lowercase : String → String) where
  pub replay_permission : PermissionStore → WalRecord → PermissionStore
  replay_permission s (WalRecord.grant username table permission) =
      Permissions.grant to_lowercase s username table permission
  replay_permission s (WalRecord.revoke username table permission) =
      Permissions.revoke to_lowercase s username table permission
  replay_permission s _ = s

  pub replay_permissions : PermissionStore → List WalRecord → PermissionStore
  replay_permissions s [] = s
  replay_permissions s (r ∷ records) = replay_permissions (replay_permission s r) records

  unfoldable pub replay_permissions_from_wal : List WalRecord → PermissionStore
  unfolding replay_permissions replay_permission
  replay_permissions_from_wal records = replay_permissions Permissions.new records

-- The record of the account that was just made or changed, and what `get_user` missing it means.
log_user : {S : Type 0} → Engine S → HelionError → Option User → Engine S × Result (Unit {0})
log_user e missing none = (e, err missing)
log_user e missing (some u) = append e (WalRecord.create_user u.username u.password_hash)

with_users :
    {S : Type 0} → Engine S → HelionError → String → Result UserStore → Engine S × Result (Unit {0})
unfolding log_user
with_users e missing username (err x) = (e, err x)
with_users e missing username (ok users) =
    log_user (record e { users = users }) missing (get_user users username)

module _ {S : Type 0} (hash_password : String → String → Result String)
    (verifies : String → String → Bool) where
  unfoldable pub create_user : String → Engine S → String → String → Engine S × Result (Unit {0})
  unfolding with_users
  create_user salt e username password =
      with_users e
        (internal (text "Failed to find just-created user '" ∷ text username ∷ text "'" ∷ []))
        username (Users.create_user hash_password verifies salt e.users username password)

  unfoldable pub alter_user_password :
      String → Engine S → String → String → Engine S × Result (Unit {0})
  unfolding with_users
  alter_user_password salt e username new_password =
      with_users e (internal (text "Failed to find updated user '" ∷ text username ∷ text "'" ∷ []))
        username (Users.update_password hash_password verifies salt e.users username new_password)

module _ {S : Type 0} (to_lowercase : String → String) where
  drop_from : Engine S → String → Result UserStore → Engine S × Result (Unit {0})
  drop_from e username (err x) = (e, err x)
  drop_from e username (ok users) =
      and_then (append (record e { users = users }) (WalRecord.drop_user username)) (λ f. (
        record f { permissions = Permissions.remove_user to_lowercase f.permissions username },
        ok tt,
      ))

  unfoldable pub drop_user : Engine S → String → Engine S × Result (Unit {0})
  unfolding drop_from
  drop_user e username = drop_from e username (Users.drop_user e.users username)

  unfoldable pub grant_permission :
      Engine S → String → String → Permission → Engine S × Result (Unit {0})
  grant_permission e username table permission =
      if user_exists e.users username
      then (if any (λ (t : Table). eq_ignore_ascii_case t.name table) e.tables
          then append
              (record e {
                permissions =
                    Permissions.grant to_lowercase e.permissions username table permission;
              })
              (WalRecord.grant username table permission)
          else (e, err (table_not_found table)))
      else (e, err (auth (text "User '" ∷ text username ∷ text "' does not exist" ∷ [])))

  unfoldable pub revoke_permission :
      Engine S → String → String → Permission → Engine S × Result (Unit {0})
  revoke_permission e username table permission =
      append
        (record e {
          permissions = Permissions.revoke to_lowercase e.permissions username table permission;
        })
        (WalRecord.revoke username table permission)
