-- ===== src/Engine/Accounts/Grants.antt =====
-- Grants and revocations survive a restart.
use heliondb.Base.{
  String, Bool, true, false, List, [], ◌∷◌, ◌++◌, ◌≡◌, refl, sym, ap, ◌∙◌, if◌then◌else◌, any,
}
use heliondb.Base.Text.{eq_ignore_ascii_case}
use heliondb.Error.{HelionError, Result, ok, err}
use heliondb.Table.{Table}
use heliondb.Users
use heliondb.Users.{UserStore, user_exists}
use heliondb.Permissions
use heliondb.Permissions.{PermissionStore, Permission}
use heliondb.Wal.{WalRecord}
use heliondb.Engine.{Engine, append, and_then}
use heliondb.Engine.Accounts.{
  replay_permission, replay_permissions, replay_permissions_from_wal, grant_permission,
  revoke_permission, drop_from, drop_user,
}
use heliondb.Engine.Accounts.Recovery.{Logged, append-Logged}

replay_permissions-snoc :
    (to_lowercase : String → String) (records : List WalRecord) (s : PermissionStore)
    (r : WalRecord)
    → replay_permissions to_lowercase s (records ++ r ∷ [])
      ≡ replay_permission to_lowercase (replay_permissions to_lowercase s records) r
unfolding replay_permissions
replay_permissions-snoc to_lowercase [] s r = refl
replay_permissions-snoc to_lowercase (q ∷ records) s r =
    replay_permissions-snoc to_lowercase records (replay_permission to_lowercase s q) r

module _ {S : Type 0} where
  abbrev pub PermissionsSynced : (String → String) → Engine S → Type 0
  PermissionsSynced to_lowercase e = replay_permissions_from_wal to_lowercase e.log ≡ e.permissions

  abbrev pub KeepsPermissions : (String → String) → Engine S × Result (Unit {0}) → Type 0
  KeepsPermissions to_lowercase (f, ok _) = PermissionsSynced to_lowercase f
  KeepsPermissions to_lowercase (f, err _) = Unit

  entry-KeepsPermissions :
      (to_lowercase : String → String) (e f : Engine S) (r : WalRecord)
      (o : Engine S × Result (Unit {0}))
      → Logged f r o
      → f.log ≡ e.log
      → PermissionsSynced to_lowercase e
      → replay_permission to_lowercase e.permissions r ≡ f.permissions
      → KeepsPermissions to_lowercase o
  unfolding replay_permissions_from_wal
  entry-KeepsPermissions to_lowercase e f r (g, err x) l el s h = tt
  entry-KeepsPermissions to_lowercase e f r (g, ok _) l el s h =
      ap (replay_permissions to_lowercase Permissions.new) (l.0 ∙ ap (λ q. q ++ r ∷ []) el)
      ∙ replay_permissions-snoc to_lowercase e.log Permissions.new r
      ∙ ap (λ u. replay_permission to_lowercase u r) s
      ∙ h
      ∙ sym l.2

  append-KeepsPermissions :
      (to_lowercase : String → String) (e f : Engine S) (r : WalRecord)
      → f.log ≡ e.log
      → PermissionsSynced to_lowercase e
      → replay_permission to_lowercase e.permissions r ≡ f.permissions
      → KeepsPermissions to_lowercase (append f r)
  append-KeepsPermissions to_lowercase e f r =
      entry-KeepsPermissions to_lowercase e f r (append f r) (append-Logged f r)

  granted_if :
      (to_lowercase : String → String) (known there : Bool) (x y : HelionError) (e : Engine S)
      (o : Engine S × Result (Unit {0}))
      → KeepsPermissions to_lowercase o
      → KeepsPermissions to_lowercase
          (if known then (if there then o else (e, err x)) else (e, err y))
  granted_if to_lowercase true true x y e o k = k
  granted_if to_lowercase true false x y e o k = tt
  granted_if to_lowercase false there x y e o k = tt

  -- Grants and revocations survive a replay: where the replay of the records that stand whole in the
  -- log gives the permissions of the engine, it does so after every grant and every revocation that
  -- succeeds.
  pub grants-KeepsPermissions :
      (to_lowercase : String → String) (e : Engine S) (username table : String)
      (permission : Permission)
      → PermissionsSynced to_lowercase e
      → KeepsPermissions to_lowercase (grant_permission to_lowercase e username table permission)
        × KeepsPermissions to_lowercase (revoke_permission to_lowercase e username table permission)
  unfolding grant_permission revoke_permission replay_permission
  grants-KeepsPermissions to_lowercase e username table permission s = (
    granted_if to_lowercase (user_exists e.users username)
        (any (λ (t : Table). eq_ignore_ascii_case t.name table) e.tables) _ _ e _
        (append-KeepsPermissions to_lowercase e
          (record e {
            permissions = Permissions.grant to_lowercase e.permissions username table permission;
          })
          (WalRecord.grant username table permission) refl s refl),
    append-KeepsPermissions to_lowercase e
        (record e {
          permissions = Permissions.revoke to_lowercase e.permissions username table permission;
        })
        (WalRecord.revoke username table permission) refl s refl,
  )

  removed :
      (to_lowercase : String → String) (f g : Engine S) (r : WalRecord) (username : String)
      (o : Engine S × Result (Unit {0}))
      → Logged f r o
      → and_then o (λ e. (
        record e { permissions = Permissions.remove_user to_lowercase e.permissions username },
        ok tt,
      ))
        ≡ (g, ok tt)
      → (g.log ≡ f.log ++ r ∷ [])
        × (g.permissions ≡ Permissions.remove_user to_lowercase f.permissions username)
  removed to_lowercase f g r username (e, err x) l h = absurd (cc h)
  removed to_lowercase f g r username (e, ok _) l h = (
    ap (λ (q : Engine S × Result (Unit {0})). q.0.log) (sym h) ∙ l.0,
    ap (λ (q : Engine S × Result (Unit {0})). q.0.permissions) (sym h)
        ∙ ap (λ p. Permissions.remove_user to_lowercase p username) l.2,
  )

  -- The engine has no permission of the user, and the replay of its log gives them all.
  abbrev pub Return : (String → String) → Engine S → Engine S → String → Type 0
  Return to_lowercase e g username =
      (g.permissions ≡ Permissions.remove_user to_lowercase e.permissions username)
      × (replay_permissions_from_wal to_lowercase g.log ≡ e.permissions)

  drop_result :
      (to_lowercase : String → String) (e g : Engine S) (username : String)
      (rest : Result UserStore)
      → drop_from to_lowercase e username rest ≡ (g, ok tt)
      → PermissionsSynced to_lowercase e
      → Return to_lowercase e g username
  unfolding drop_from replay_permissions_from_wal replay_permission
  drop_result to_lowercase e g username (err x) h s = absurd (cc h)
  drop_result to_lowercase e g username (ok t) h s =
      let f : Engine S = record e { users = t } in
      let r = WalRecord.drop_user username in
      let done = removed to_lowercase f g r username (append f r) (append-Logged f r) h in
      (
        done.1,
        ap (replay_permissions to_lowercase Permissions.new) done.0
            ∙ replay_permissions-snoc to_lowercase e.log Permissions.new r
            ∙ s,
      )

  -- Permissions of a removed user come back at a restart: after a removal that succeeds the engine
  -- has none of them left, and the replay of its log gives the permissions from before the removal.
  pub drop_user-Return :
      (to_lowercase : String → String) (e g : Engine S) (username : String)
      → drop_user to_lowercase e username ≡ (g, ok tt)
      → PermissionsSynced to_lowercase e
      → Return to_lowercase e g username
  unfolding drop_user
  drop_user-Return to_lowercase e g username h s =
      drop_result to_lowercase e g username (Users.drop_user e.users username) h s
