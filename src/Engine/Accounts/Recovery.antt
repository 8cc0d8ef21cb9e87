-- ===== src/Engine/Accounts/Recovery.antt =====
-- What the replay of the log makes of accounts and permissions: most changes come back after a
-- restart, a changed password and the removal of a user's permissions do not.
use heliondb.Base.{
  String, Bool, Option, none, some, List, [], ◌∷◌, ◌++◌, ◌≡◌, refl, sym, ap, ◌∙◌, arith,
}
use heliondb.Base.Text.{eq_ignore_ascii_case_iff}
use heliondb.Error.{HelionError, Result, ok, err}
use heliondb.Users
use heliondb.Users.{User, UserStore, is_named, get_user, user_exists, change_first}
use heliondb.Users.Passwords.{find?-snoc, find?-any}
use heliondb.Permissions
use heliondb.Permissions.{PermissionStore, Permission}
use heliondb.Wal.{WalRecord}
use heliondb.Engine.{Engine, Fault, append, written, and_then}
use heliondb.Engine.Accounts.{
  or_same, replay_user, replay_users, replay_users_from_wal, log_user, with_users, create_user,
  drop_from, drop_user,
}

pub replay_users-snoc :
    (records : List WalRecord) (s : UserStore) (r : WalRecord)
    → replay_users s (records ++ r ∷ []) ≡ replay_user (replay_users s records) r
unfolding replay_users
replay_users-snoc [] s r = refl
replay_users-snoc (q ∷ records) s r = replay_users-snoc records (replay_user s q) r

module _ (hash_password : String → String → Result String) (verifies : String → String → Bool) where
  -- An account that was made is the only one of its name, and the replay makes it again.
  created_again :
      (s t : UserStore) (salt username password : String) (hash : Result String)
      → hash_password password salt ≡ hash
      → Users.create_user hash_password verifies salt s username password ≡ ok t
      → (u : User) × (get_user t username ≡ some u)
        × (replay_user s (WalRecord.create_user u.username u.password_hash) ≡ t)
  unfolding Users.create_user Users.insert_user replay_user
  created_again s t salt username password (err x) hr h = absurd (ground arith)
  created_again s t salt username password (ok hash) hr h =
      let u : User = record { username = username; password_hash = hash } in
      (
        u,
        ground (
          arith,
          find?-snoc username s.users u,
          find?-any username s.users,
          eq_ignore_ascii_case_iff username username,
        ),
        ground arith,
      )

dropped_again :
    (s t : UserStore) (username : String)
    → Users.drop_user s username ≡ ok t
    → replay_user s (WalRecord.drop_user username) ≡ t
unfolding replay_user
dropped_again s t username h = ap (or_same s) h

module _ {S : Type 0} where
  -- The record is in the log, where its writing succeeded.
  abbrev pub Logged : Engine S → WalRecord → Engine S × Result (Unit {0}) → Type 0
  Logged e r (f, ok _) =
      (f.log ≡ e.log ++ r ∷ []) × (f.users ≡ e.users) × (f.permissions ≡ e.permissions)
  Logged e r (f, err _) = Unit

  written-Logged :
      (e : Engine S) (r : WalRecord) (faults : List (Option Fault))
      → Logged e r (written e r faults)
  unfolding written
  written-Logged e r [] = (refl, refl, refl)
  written-Logged e r (none ∷ faults) = (refl, refl, refl)
  written-Logged e r (some x ∷ faults) = tt

  pub append-Logged : (e : Engine S) (r : WalRecord) → Logged e r (append e r)
  unfolding append
  append-Logged e r = written-Logged e r e.faults

  -- The replay of the records in the log gives the accounts of the engine.
  abbrev pub UsersSynced : Engine S → Type 0
  UsersSynced e = replay_users_from_wal e.log ≡ e.users

  -- The same after an operation that succeeds.
  abbrev pub KeepsUsers : Engine S × Result (Unit {0}) → Type 0
  KeepsUsers (f, ok _) = UsersSynced f
  KeepsUsers (f, err _) = Unit

  entry-KeepsUsers :
      (e f : Engine S) (r : WalRecord) (o : Engine S × Result (Unit {0}))
      → Logged f r o
      → f.log ≡ e.log
      → UsersSynced e
      → replay_user e.users r ≡ f.users
      → KeepsUsers o
  unfolding replay_users_from_wal
  entry-KeepsUsers e f r (g, err x) l el s h = tt
  entry-KeepsUsers e f r (g, ok _) l el s h =
      ap (replay_users Users.new) (l.0 ∙ ap (λ q. q ++ r ∷ []) el)
      ∙ replay_users-snoc e.log Users.new r
      ∙ ap (λ u. replay_user u r) s
      ∙ h
      ∙ sym l.1

  logged_user :
      (e f : Engine S) (missing : HelionError) (looked_up : Option User) (u : User)
      → looked_up ≡ some u
      → f.log ≡ e.log
      → UsersSynced e
      → replay_user e.users (WalRecord.create_user u.username u.password_hash) ≡ f.users
      → KeepsUsers (log_user f missing looked_up)
  unfolding log_user
  logged_user e f missing none u q el s h = tt
  logged_user e f missing (some w) u q el s h =
      entry-KeepsUsers e f (WalRecord.create_user w.username w.password_hash)
        (append f (WalRecord.create_user w.username w.password_hash))
        (append-Logged f (WalRecord.create_user w.username w.password_hash)) el s
        (ap (λ (v : User). replay_user e.users (WalRecord.create_user v.username v.password_hash))
            (ground arith)
          ∙ h)

  module _ (hash_password : String → String → Result String)
      (verifies : String → String → Bool) where
    create_result :
        (salt : String) (e : Engine S) (username password : String) (missing : HelionError)
        (created : Result UserStore)
        → Users.create_user hash_password verifies salt e.users username password ≡ created
        → UsersSynced e
        → KeepsUsers (with_users e missing username created)
    unfolding with_users
    create_result salt e username password missing (err x) h s = tt
    create_result salt e username password missing (ok t) h s =
        let (u, looked_up, again) =
          created_again hash_password verifies e.users t salt username password
            (hash_password password salt) refl h in
        logged_user e (record e { users = t }) missing (get_user t username) u looked_up refl s
          again

  then_keeps :
      (to_lowercase : String → String) (username : String) (o : Engine S × Result (Unit {0}))
      → KeepsUsers o
      → KeepsUsers (
          and_then o (λ f. (
            record f { permissions = Permissions.remove_user to_lowercase f.permissions username },
            ok tt,
          )))
  then_keeps to_lowercase username (f, ok _) k = k
  then_keeps to_lowercase username (f, err x) k = tt

  dropped :
      (to_lowercase : String → String) (e : Engine S) (username : String) (rest : Result UserStore)
      → Users.drop_user e.users username ≡ rest
      → UsersSynced e
      → KeepsUsers (drop_from to_lowercase e username rest)
  unfolding drop_from
  dropped to_lowercase e username (err x) h s = tt
  dropped to_lowercase e username (ok t) h s =
      then_keeps to_lowercase username
        (append (record e { users = t }) (WalRecord.drop_user username))
        (entry-KeepsUsers e (record e { users = t }) (WalRecord.drop_user username)
          (append (record e { users = t }) (WalRecord.drop_user username))
          (append-Logged (record e { users = t }) (WalRecord.drop_user username)) refl s
          (dropped_again e.users t username h))

  -- Making and removing accounts survives a replay: where the replay of the records that stand whole
  -- in the log gives the accounts of the engine, it does so after every creation and every removal
  -- that succeeds.
  pub accounts-KeepsUsers :
      (hash_password : String → String → Result String) (verifies : String → String → Bool)
      (to_lowercase : String → String) (salt : String) (e : Engine S) (username password : String)
      → UsersSynced e
      → KeepsUsers (create_user hash_password verifies salt e username password)
        × KeepsUsers (drop_user to_lowercase e username)
  unfolding create_user drop_user
  accounts-KeepsUsers hash_password verifies to_lowercase salt e username password s = (
    create_result hash_password verifies salt e username password _
        (Users.create_user hash_password verifies salt e.users username password) refl s,
    dropped to_lowercase e username (Users.drop_user e.users username) refl s,
  )
