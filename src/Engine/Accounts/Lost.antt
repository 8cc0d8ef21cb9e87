-- ===== src/Engine/Accounts/Lost.antt =====
-- Two changes that do not survive a restart: a new password, and the permissions of a removed user.
use heliondb.Base.{
  String, Bool, true, Option, none, some, List, [], ◌∷◌, ◌++◌, ◌≡◌, refl, sym, ap, ◌∙◌, arith, any,
  find?, subst,
}
use heliondb.Base.Text.{eq_ignore_ascii_case_iff}
use heliondb.Error.{HelionError, Result, ok, err}
use heliondb.Users
use heliondb.Users.{User, UserStore, is_named, get_user, user_exists, change_first}
use heliondb.Wal.{WalRecord}
use heliondb.Engine.{Engine, append}
use heliondb.Engine.Accounts.{
  replay_user, replay_users, replay_users_from_wal, log_user, with_users, alter_user_password,
}
use heliondb.Engine.Accounts.Recovery.{UsersSynced, Logged, append-Logged, replay_users-snoc}

-- The account that a change of password leaves is still found by its name in the old store.
changed_exists :
    (n hash : String) (users : List User) (u : User)
    → find? (is_named n) (change_first n (λ w. record w { password_hash = hash }) users) ≡ some u
    → any (is_named u.username) users ≡ true
unfolding change_first
changed_exists n hash [] u h = cc
changed_exists n hash (w ∷ users) u h =
    ground (arith, changed_exists n hash users u, eq_ignore_ascii_case_iff w.username w.username)

module _ (hash_password : String → String → Result String) (verifies : String → String → Bool) where
  refused_again :
      (s t : UserStore) (salt username password : String) (u : User) (hash : Result String)
      → hash_password password salt ≡ hash
      → Users.update_password hash_password verifies salt s username password ≡ ok t
      → get_user t username ≡ some u
      → replay_user s (WalRecord.create_user u.username u.password_hash) ≡ s
  unfolding Users.update_password Users.insert_user replay_user
  refused_again s t salt username password u (err x) hr h g = absurd (ground arith)
  refused_again s t salt username password u (ok hash) hr h g =
      ground (arith, changed_exists username hash s.users u)

module _ {S : Type 0} where
  -- What a successful append has done to the log and to the accounts.
  appended : (e f : Engine S) (r : WalRecord) → append e r ≡ (f, ok tt) → Logged e r (f, ok tt)
  appended e f r h = subst (Logged e r) h (append-Logged e r)

  replay_after :
      (e g : Engine S) (r : WalRecord)
      → g.log ≡ e.log ++ r ∷ []
      → UsersSynced e
      → replay_users_from_wal g.log ≡ replay_user e.users r
  unfolding replay_users_from_wal
  replay_after e g r l s =
      ap (replay_users Users.new) l
      ∙ replay_users-snoc e.log Users.new r
      ∙ ap (λ u. replay_user u r) s

  module _ (hash_password : String → String → Result String)
      (verifies : String → String → Bool) where
    -- The engine has the new accounts, and the replay of its log the old ones.
    abbrev pub IsLost : Engine S → Engine S → String → String → String → Type 0
    IsLost e g salt username password =
        (Users.update_password hash_password verifies salt e.users username password ≡ ok g.users)
        × (replay_users_from_wal g.log ≡ e.users)

    log_user-IsLost :
        (e g : Engine S) (t : UserStore) (salt username password : String) (missing : HelionError)
        (looked_up : Option User)
        → Users.update_password hash_password verifies salt e.users username password ≡ ok t
        → get_user t username ≡ looked_up
        → log_user (record e { users = t }) missing looked_up ≡ (g, ok tt)
        → UsersSynced e
        → IsLost e g salt username password
    unfolding log_user
    log_user-IsLost e g t salt username password missing none h l a s = absurd (cc a)
    log_user-IsLost e g t salt username password missing (some u) h l a s =
        let r = WalRecord.create_user u.username u.password_hash in
        let done = appended (record e { users = t }) g r a in
        (
          h ∙ ap ok (sym done.1),
          replay_after e g r done.0 s
              ∙ refused_again hash_password verifies e.users t salt username password u
                  (hash_password password salt) refl h l,
        )

    with_users-IsLost :
        (e g : Engine S) (salt username password : String) (missing : HelionError)
        (updated : Result UserStore)
        → Users.update_password hash_password verifies salt e.users username password ≡ updated
        → with_users e missing username updated ≡ (g, ok tt)
        → UsersSynced e
        → IsLost e g salt username password
    unfolding with_users
    with_users-IsLost e g salt username password missing (err x) h a s = absurd (cc a)
    with_users-IsLost e g salt username password missing (ok t) h a s =
        log_user-IsLost e g t salt username password missing (get_user t username) h refl a s

    -- A changed password is lost at a restart: after a change that succeeds the engine has the
    -- accounts with the new password, and the replay of its log gives those from before the change.
    pub alter_user_password-IsLost :
        (e g : Engine S) (salt username password : String)
        → alter_user_password hash_password verifies salt e username password ≡ (g, ok tt)
        → UsersSynced e
        → IsLost e g salt username password
    unfolding alter_user_password
    alter_user_password-IsLost e g salt username password a s =
        with_users-IsLost e g salt username password _
          (Users.update_password hash_password verifies salt e.users username password) refl a s
