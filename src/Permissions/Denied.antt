-- ===== src/Permissions/Denied.antt =====
-- storage/permissions.rs: when nothing is allowed.
use heliondb.Base.{String, false, Option, none, some, List, [], ◌∷◌, ◌≡◌, refl, ap, ◌∙◌, any, All}
use heliondb.Base.HashMap
use heliondb.Base.Text.{eq_ignore_ascii_case}
use heliondb.Permissions.{
  Permission, PermissionStore, same_grantee, key_of, held, is_some, covers, insert_allows,
  update_allows, delete_allows, can_insert, can_update, can_delete, has_any,
}
use heliondb.Permissions.Laws.{perms}

-- A name that is not empty, as `eq_ignore_ascii_case` compares it.
abbrev pub IsNamed : String → Type 0
IsNamed column = eq_ignore_ascii_case column "" ≡ false

any_blank :
    (granted : List String)
    → All IsNamed granted
    → any (λ g. eq_ignore_ascii_case g "") granted ≡ false
any_blank [] h = refl
any_blank (g ∷ granted) h = rw h.0 (any_blank granted h.1)

held-none : (o : Option (List Permission)) → is_some o ≡ false → held o ≡ []
held-none none h = refl
held-none (some ps) h = absurd (cc h)

module _ (to_lowercase : String → String) (s : PermissionStore) (user table : String) where
  pub has_any-false :
      (columns : List String)
      → has_any to_lowercase s user table ≡ false
      → (can_insert to_lowercase s user table columns ≡ false)
        × (can_update to_lowercase s user table columns ≡ false)
        × (can_delete to_lowercase s user table ≡ false)
  unfolding has_any can_insert can_update can_delete
  has_any-false columns h =
      let e = held-none (HashMap.get same_grantee (key_of to_lowercase user table) s.grants) h in
      (
        ap (λ ps. any (insert_allows columns) ps) e,
        ap (λ ps. any (update_allows columns) ps) e,
        ap (λ ps. any delete_allows ps) e,
      )

  pub can_insert-blank :
      (g : String) (granted columns : List String)
      → perms to_lowercase s user table ≡ Permission.insert (g ∷ granted) ∷ []
      → All IsNamed (g ∷ granted)
      → can_insert to_lowercase s user table ("" ∷ columns) ≡ false
  unfolding can_insert insert_allows covers
  can_insert-blank g granted columns h n =
      ap (λ ps. any (insert_allows ("" ∷ columns)) ps) h ∙ rw (any_blank (g ∷ granted) n) refl
