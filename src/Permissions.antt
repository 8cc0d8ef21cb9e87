-- ===== src/Permissions.antt =====
-- storage/permissions.rs: what a user may do with a table.
pub mod Laws
pub mod Removal
pub mod Denied
mod Tests
use heliondb.Base.{
  ℕ, String, Bool, true, false, not, ◌&&◌, ◌||◌, Option, none, some, List, [], ◌∷◌, ◌++◌,
  if◌then◌else◌, any, retain,
}
use heliondb.Base
use heliondb.Base.Text.{str_eq, eq_ignore_ascii_case}
use heliondb.Base.HashMap
use heliondb.Base.HashMap.{HashMap}

-- An empty list of columns stands for all columns.
pub data Permission : Type 0 where
  select insert update : List String → Permission
  delete all : Permission

-- `mem::discriminant(p) == mem::discriminant(q)`.
pub same_kind : Permission → Permission → Bool
same_kind (Permission.select _) (Permission.select _) = true
same_kind (Permission.insert _) (Permission.insert _) = true
same_kind (Permission.update _) (Permission.update _) = true
same_kind Permission.delete Permission.delete = true
same_kind Permission.all Permission.all = true
same_kind _ _ = false

abbrev same_columns : List String → List String → Bool
same_columns [] [] = true
same_columns (x ∷ xs) (y ∷ ys) = str_eq x y && same_columns xs ys
same_columns _ _ = false

abbrev pub Grantee : Type 0
Grantee = String × String

abbrev pub same_grantee : Grantee → Grantee → Bool
same_grantee (u, t) (v, s) = str_eq u v && str_eq t s

pub record PermissionStore : Type 0 where
  pub grants : HashMap Grantee (List Permission)

abbrev pub new : PermissionStore
new = record { grants = [] }

abbrev held : Option (List Permission) → List Permission
held none = []
held (some perms) = perms

-- Does the permission survive the revocation of another?
pub survives : Permission → Permission → Bool
unfolding same_kind
survives (Permission.select a) (Permission.select b) = not (same_columns a b)
survives (Permission.insert a) (Permission.insert b) = not (same_columns a b)
survives (Permission.update a) (Permission.update b) = not (same_columns a b)
survives p q = not (same_kind p q)

pub covers : List String → List String → Bool
covers [] columns = true
covers (g ∷ granted) columns =
    Base.all (λ c. any (λ gc. eq_ignore_ascii_case gc c) (g ∷ granted)) columns

abbrev kept : (Permission → Bool) → Option (List Permission) → List Permission
kept p o = retain p (held o)

pub select_allows : List String → Permission → Bool
unfolding covers
select_allows columns Permission.all = true
select_allows columns (Permission.select granted) = covers granted columns
select_allows columns _ = false

insert_allows : List String → Permission → Bool
unfolding covers
insert_allows columns Permission.all = true
insert_allows columns (Permission.insert granted) = covers granted columns
insert_allows columns _ = false

update_allows : List String → Permission → Bool
unfolding covers
update_allows columns Permission.all = true
update_allows columns (Permission.update granted) = covers granted columns
update_allows columns _ = false

delete_allows : Permission → Bool
delete_allows Permission.all = true
delete_allows Permission.delete = true
delete_allows _ = false

-- `remove` where nothing is left, else the new list.
settle : PermissionStore → Grantee → List Permission → PermissionStore
settle s key [] = record s { grants = HashMap.remove same_grantee key s.grants }
settle s key (p ∷ perms) = record s {
  grants = HashMap.insert same_grantee key (p ∷ perms) s.grants;
}

retain_keys :
    (Grantee → Bool) → HashMap Grantee (List Permission) → HashMap Grantee (List Permission)
retain_keys keep [] = []
retain_keys keep ((k, perms) ∷ m) =
    let rest = retain_keys keep m in if keep k then (k, perms) ∷ rest else rest

abbrev is_some {ℓ} : {A : Type ℓ} → Option A → Bool
is_some none = false
is_some (some _) = true

-- Names are folded by `str::to_lowercase`, the Unicode mapping of the standard library.
module _ (to_lowercase : String → String) where
  abbrev pub key_of : String → String → Grantee
  key_of username table = (to_lowercase username, to_lowercase table)

  abbrev perms_of : PermissionStore → String → String → Option (List Permission)
  unfolding HashMap.get
  perms_of s username table = HashMap.get same_grantee (key_of username table) s.grants

  -- A permission of the same kind is replaced.
  unfoldable pub grant : PermissionStore → String → String → Permission → PermissionStore
  unfolding HashMap.insert HashMap.get same_kind perms_of
  grant s username table permission =
      let others = kept (λ p. not (same_kind p permission)) (perms_of s username table) in
      record s {
        grants =
            HashMap.insert same_grantee (key_of username table) (others ++ permission ∷ [])
              s.grants;
      }

  revoke_from : PermissionStore → Grantee → Permission → Option (List Permission) → PermissionStore
  unfolding settle survives
  revoke_from s key permission none = s
  revoke_from s key permission (some perms) =
      settle s key (retain (λ p. survives p permission) perms)

  pub revoke : PermissionStore → String → String → Permission → PermissionStore
  unfolding revoke_from perms_of
  revoke s username table permission =
      revoke_from s (key_of username table) permission (perms_of s username table)

  pub revoke_all : PermissionStore → String → String → PermissionStore
  unfolding HashMap.remove
  revoke_all s username table = record s {
    grants = HashMap.remove same_grantee (key_of username table) s.grants;
  }

  pub can_select : PermissionStore → String → String → List String → Bool
  unfolding select_allows perms_of
  can_select s username table columns =
      any (select_allows columns) (held (perms_of s username table))

  pub can_insert : PermissionStore → String → String → List String → Bool
  unfolding insert_allows perms_of
  can_insert s username table columns =
      any (insert_allows columns) (held (perms_of s username table))

  pub can_update : PermissionStore → String → String → List String → Bool
  unfolding update_allows perms_of
  can_update s username table columns =
      any (update_allows columns) (held (perms_of s username table))

  pub can_delete : PermissionStore → String → String → Bool
  unfolding delete_allows perms_of
  can_delete s username table = any delete_allows (held (perms_of s username table))

  unfoldable pub has_any : PermissionStore → String → String → Bool
  unfolding perms_of
  has_any s username table = is_some (perms_of s username table)

  unfoldable pub remove_user : PermissionStore → String → PermissionStore
  unfolding retain_keys
  remove_user s username = record s {
    grants = retain_keys (λ k. not (str_eq k.0 (to_lowercase username))) s.grants;
  }

  unfoldable pub remove_table : PermissionStore → String → PermissionStore
  unfolding retain_keys
  remove_table s table = record s {
    grants = retain_keys (λ k. not (str_eq k.1 (to_lowercase table))) s.grants;
  }
