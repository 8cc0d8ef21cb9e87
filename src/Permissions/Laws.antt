-- ===== src/Permissions/Laws.antt =====
-- What a user may do after grants, revocations and removals.
use heliondb.Base.{
  String, Bool, true, not, ◌||◌, List, [], ◌∷◌, ◌++◌, ◌≡◌, ◌↔◌, refl, ap, ◌∙◌, arith, if◌then◌else◌,
  any, retain,
}
use heliondb.Base.Text.{str_eq_iff}
use heliondb.Base.HashMap
use heliondb.Base.HashMap.{HashMap, get-insert, get-remove}
use heliondb.Permissions.{
  Permission, PermissionStore, Grantee, same_grantee, same_kind, held, covers, select_allows,
  insert_allows, update_allows, key_of, grant, can_select, can_insert, can_update,
}

pub same_grantee_iff : (a b : Grantee) → (same_grantee a b ≡ true) ↔ (a ≡ b)
same_grantee_iff (u, t) (v, s) = ground (arith, str_eq_iff u v, str_eq_iff t s)

any-append :
    (p : Permission → Bool) (xs ys : List Permission) → any p (xs ++ ys) ≡ any p xs || any p ys
any-append p [] ys = refl
any-append p (x ∷ xs) ys = ground (arith, any-append p xs ys)

-- Is ALL among the permissions?
abbrev pub has_all : List Permission → Bool
has_all = any (same_kind Permission.all)

select-others :
    (g c : List String) (perms : List Permission)
    → any (select_allows c) (retain (λ p. not (same_kind p (Permission.select g))) perms)
      ≡ has_all perms
unfolding select_allows same_kind
select-others g c [] = refl
select-others g c (Permission.all ∷ perms) = ground (arith, select-others g c perms)
select-others g c (_ ∷ perms) = ground (arith, select-others g c perms)

insert-others :
    (g c : List String) (perms : List Permission)
    → any (insert_allows c) (retain (λ p. not (same_kind p (Permission.insert g))) perms)
      ≡ has_all perms
unfolding insert_allows same_kind
insert-others g c [] = refl
insert-others g c (Permission.all ∷ perms) = ground (arith, insert-others g c perms)
insert-others g c (_ ∷ perms) = ground (arith, insert-others g c perms)

update-others :
    (g c : List String) (perms : List Permission)
    → any (update_allows c) (retain (λ p. not (same_kind p (Permission.update g))) perms)
      ≡ has_all perms
unfolding update_allows same_kind
update-others g c [] = refl
update-others g c (Permission.all ∷ perms) = ground (arith, update-others g c perms)
update-others g c (_ ∷ perms) = ground (arith, update-others g c perms)

module _ (to_lowercase : String → String) where
  -- The permissions of a user on a table.
  abbrev pub perms : PermissionStore → String → String → List Permission
  perms s username table =
      held (HashMap.get same_grantee (key_of to_lowercase username table) s.grants)

  perms-grant :
      (s : PermissionStore) (u t v r : String) (p : Permission)
      → perms (grant to_lowercase s u t p) v r ≡ (
          if same_grantee (key_of to_lowercase u t) (key_of to_lowercase v r)
          then retain (λ q. not (same_kind q p)) (perms s u t) ++ p ∷ []
          else perms s v r)
  unfolding grant
  perms-grant s u t v r p = ground (
    arith,
    get-insert same_grantee same_grantee_iff (key_of to_lowercase u t) (key_of to_lowercase v r)
        (retain (λ q. not (same_kind q p)) (perms s u t) ++ p ∷ []) s.grants,
  )

  pub perms-grant_self :
      (s : PermissionStore) (u t : String) (p : Permission)
      → perms (grant to_lowercase s u t p) u t
        ≡ retain (λ q. not (same_kind q p)) (perms s u t) ++ p ∷ []
  perms-grant_self s u t p = ground (
    arith,
    perms-grant s u t u t p,
    same_grantee_iff (key_of to_lowercase u t) (key_of to_lowercase u t),
  )

  -- After a grant of SELECT, INSERT or UPDATE on some columns, the user may select, insert or update
  -- exactly if the grant covers the columns or the user holds ALL: an earlier grant of the same
  -- kind is replaced. A grant of any permission replaces those of its kind of this user on this
  -- table, and nobody else's permissions change.
  pub grant_lem :
      (s : PermissionStore) (u t : String) (g c : List String)
      → (can_select to_lowercase (grant to_lowercase s u t (Permission.select g)) u t c
          ≡ has_all (perms s u t) || covers g c)
        × (can_insert to_lowercase (grant to_lowercase s u t (Permission.insert g)) u t c
            ≡ has_all (perms s u t) || covers g c)
        × (can_update to_lowercase (grant to_lowercase s u t (Permission.update g)) u t c
            ≡ has_all (perms s u t) || covers g c)
        × ((p : Permission) (v r : String)
            → perms (grant to_lowercase s u t p) v r ≡ (
                if same_grantee (key_of to_lowercase u t) (key_of to_lowercase v r)
                then retain (λ q. not (same_kind q p)) (perms s u t) ++ p ∷ []
                else perms s v r))
  unfolding can_select can_insert can_update
  grant_lem s u t g c = (
    ap (any (select_allows c)) (perms-grant_self s u t (Permission.select g))
        ∙ any-append (select_allows c)
            (retain (λ q. not (same_kind q (Permission.select g))) (perms s u t)) _
        ∙ ground (arith, select-others g c (perms s u t)),
    ap (any (insert_allows c)) (perms-grant_self s u t (Permission.insert g))
        ∙ any-append (insert_allows c)
            (retain (λ q. not (same_kind q (Permission.insert g))) (perms s u t)) _
        ∙ ground (arith, insert-others g c (perms s u t)),
    ap (any (update_allows c)) (perms-grant_self s u t (Permission.update g))
        ∙ any-append (update_allows c)
            (retain (λ q. not (same_kind q (Permission.update g))) (perms s u t)) _
        ∙ ground (arith, update-others g c (perms s u t)),
    λ p v r. perms-grant s u t v r p,
  )
