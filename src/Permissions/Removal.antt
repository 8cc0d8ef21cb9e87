-- ===== src/Permissions/Removal.antt =====
-- Revocation, and the removal of users and tables.
use heliondb.Base.{
  String, Bool, false, not, ◌||◌, none, List, [], ◌∷◌, ◌++◌, ◌≡◌, refl, ap, ◌∙◌, arith,
  if◌then◌else◌, any, retain,
}
use heliondb.Base.Text.{str_eq}
use heliondb.Base.HashMap
use heliondb.Base.HashMap.{HashMap, get-insert, get-remove}
use heliondb.Permissions.{
  Permission, PermissionStore, Grantee, same_grantee, same_kind, held, covers, select_allows,
  delete_allows, key_of, grant, revoke, revoke_all, settle, survives, same_columns, retain_keys,
  can_select, can_delete, remove_user, remove_table, has_any,
}
use heliondb.Permissions.Laws.{perms, has_all, same_grantee_iff, perms-grant_self}

perms-settle :
    (s : PermissionStore) (k j : Grantee) (ps : List Permission)
    → held (HashMap.get same_grantee j (settle s k ps).grants)
      ≡ (if same_grantee k j then ps else held (HashMap.get same_grantee j s.grants))
unfolding settle
perms-settle s k j [] = ground (arith, get-remove same_grantee same_grantee_iff k j s.grants)
perms-settle s k j (p ∷ ps) =
    ground (arith, get-insert same_grantee same_grantee_iff k j (p ∷ ps) s.grants)

get-retain_keys :
    (keep : Grantee → Bool) (j : Grantee) (m : HashMap Grantee (List Permission))
    → HashMap.get same_grantee j (retain_keys keep m)
      ≡ (if keep j then HashMap.get same_grantee j m else none)
unfolding retain_keys HashMap.get
get-retain_keys keep j [] = ground arith
get-retain_keys keep j ((k, ps) ∷ m) =
    ground (arith, get-retain_keys keep j m, same_grantee_iff k j, ap keep {x = k} {y = j})

revoked-select :
    (g h c : List String) (ps : List Permission)
    → any (select_allows c) (
        retain
          (λ p. survives p (Permission.select h))
          (retain (λ p. not (same_kind p (Permission.select g))) ps ++ Permission.select g ∷ []))
      ≡ (if same_columns g h then has_all ps else has_all ps || covers g c)
unfolding select_allows same_kind survives
revoked-select g h c [] = ground arith
revoked-select g h c (Permission.all ∷ ps) = ground (arith, revoked-select g h c ps)
revoked-select g h c (_ ∷ ps) = ground (arith, revoked-select g h c ps)

revoked-delete :
    (ps : List Permission)
    → any delete_allows (retain (λ p. survives p Permission.delete) ps) ≡ has_all ps
unfolding delete_allows same_kind survives
revoked-delete [] = refl
revoked-delete (Permission.all ∷ ps) = ground (arith, revoked-delete ps)
revoked-delete (_ ∷ ps) = ground (arith, revoked-delete ps)

module _ (to_lowercase : String → String) where
  perms-revoke :
      (s : PermissionStore) (u t v r : String) (p : Permission)
      → perms to_lowercase (revoke to_lowercase s u t p) v r ≡ (
          if same_grantee (key_of to_lowercase u t) (key_of to_lowercase v r)
          then retain (λ q. survives q p) (perms to_lowercase s u t)
          else perms to_lowercase s v r)
  unfolding revoke
  perms-revoke s u t v r p = ground (
    arith,
    perms-settle s (key_of to_lowercase u t) (key_of to_lowercase v r)
        (retain (λ q. survives q p) (perms to_lowercase s u t)),
    same_grantee_iff (key_of to_lowercase u t) (key_of to_lowercase v r),
  )

  perms-revoke_self :
      (s : PermissionStore) (u t : String) (p : Permission)
      → perms to_lowercase (revoke to_lowercase s u t p) u t
        ≡ retain (λ q. survives q p) (perms to_lowercase s u t)
  perms-revoke_self s u t p = ground (
    arith,
    perms-revoke s u t u t p,
    same_grantee_iff (key_of to_lowercase u t) (key_of to_lowercase u t),
  )

  revoke-granted :
      (s : PermissionStore) (u t : String) (g h c : List String)
      → can_select to_lowercase
          (revoke to_lowercase
            (grant to_lowercase s u t (Permission.select g))
            u
            t
            (Permission.select h))
          u
          t
          c
        ≡ any (select_allows c) (
            retain
              (λ p. survives p (Permission.select h))
              (retain (λ p. not (same_kind p (Permission.select g))) (perms to_lowercase s u t)
                ++ Permission.select g ∷ []))
  unfolding can_select
  revoke-granted s u t g h c =
      ap (any (select_allows c)) (
        perms-revoke_self (grant to_lowercase s u t (Permission.select g)) u t
          (Permission.select h))
      ∙ ap (λ ps. any (select_allows c) (retain (λ q. survives q (Permission.select h)) ps))
          (perms-grant_self to_lowercase s u t (Permission.select g))

  -- After SELECT was granted on some columns, revoking it on the same list of columns leaves no
  -- SELECT but through ALL, and revoking it on any other list takes nothing away. Revoking DELETE
  -- leaves none but through ALL. A revocation takes from the user's permissions on this table
  -- those that it does not let survive, and from nobody else's any.
  pub revoke_lem :
      (s : PermissionStore) (u t : String) (g h c : List String)
      → (can_select to_lowercase
            (revoke to_lowercase
              (grant to_lowercase s u t (Permission.select g))
              u
              t
              (Permission.select h))
            u
            t
            c
          ≡ (if same_columns g h
              then has_all (perms to_lowercase s u t)
              else has_all (perms to_lowercase s u t) || covers g c))
        × (can_delete to_lowercase (revoke to_lowercase s u t Permission.delete) u t
            ≡ has_all (perms to_lowercase s u t))
        × ((p : Permission) (v r : String)
            → perms to_lowercase (revoke to_lowercase s u t p) v r ≡ (
                if same_grantee (key_of to_lowercase u t) (key_of to_lowercase v r)
                then retain (λ q. survives q p) (perms to_lowercase s u t)
                else perms to_lowercase s v r))
  unfolding can_delete
  revoke_lem s u t g h c = (
    revoke-granted s u t g h c ∙ revoked-select g h c (perms to_lowercase s u t),
    ap (any delete_allows) (perms-revoke_self s u t Permission.delete)
        ∙ revoked-delete (perms to_lowercase s u t),
    λ p v r. perms-revoke s u t v r p,
  )

  -- Removing a user, or a table, leaves no permission of that user, or on that table, and keeps
  -- all the others.
  pub remove_lem :
      (s : PermissionStore) (name v r : String)
      → (perms to_lowercase (remove_user to_lowercase s name) v r
          ≡ (if str_eq (to_lowercase v) (to_lowercase name) then [] else perms to_lowercase s v r))
        × (perms to_lowercase (remove_table to_lowercase s name) v r ≡ (
            if str_eq (to_lowercase r) (to_lowercase name) then [] else perms to_lowercase s v r))
        × (has_any to_lowercase (revoke_all to_lowercase s v r) v r ≡ false)
  unfolding remove_user remove_table has_any revoke_all
  remove_lem s name v r = (
    ground (
      arith,
      get-retain_keys (λ k. not (str_eq k.0 (to_lowercase name))) (key_of to_lowercase v r)
          s.grants,
    ),
    ground (
      arith,
      get-retain_keys (λ k. not (str_eq k.1 (to_lowercase name))) (key_of to_lowercase v r)
          s.grants,
    ),
    ground (
      arith,
      get-remove same_grantee same_grantee_iff (key_of to_lowercase v r) (key_of to_lowercase v r)
          s.grants,
      same_grantee_iff (key_of to_lowercase v r) (key_of to_lowercase v r),
    ),
  )
