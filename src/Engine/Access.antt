-- ===== src/Engine/Access.antt =====
-- storage/engine.rs: the checks of permissions.
use heliondb.Base.{String, Bool, List, [], ◌∷◌, if◌then◌else◌}
use heliondb.Error.{Message, Result, ok, err, permission_denied, text, names}
use heliondb.Permissions.{can_select, can_insert, can_update, can_delete}
use heliondb.Engine.{Engine}

abbrev pub denied : String → String → String → List String → Message
denied kind username table columns =
    text "User '"
    ∷ text username
    ∷ text "' does not have "
    ∷ text kind
    ∷ text " permission on '"
    ∷ text table
    ∷ text "' for columns "
    ∷ names columns
    ∷ []

abbrev pub denied_delete : String → String → Message
denied_delete username table =
    text "User '"
    ∷ text username
    ∷ text "' does not have DELETE permission on '"
    ∷ text table
    ∷ text "'"
    ∷ []

abbrev pub allowed : Bool → Message → Result (Unit {0})
allowed test message = if test then ok tt else err (permission_denied message)

module _ {S : Type 0} (to_lowercase : String → String) where
  pub has_permission : Engine S → String → String → List String → Bool
  has_permission e username table columns =
      can_select to_lowercase e.permissions username table columns

  unfoldable pub check_select : Engine S → String → String → List String → Result (Unit {0})
  check_select e username table columns =
      allowed (can_select to_lowercase e.permissions username table columns)
        (denied "SELECT" username table columns)

  unfoldable pub check_insert : Engine S → String → String → List String → Result (Unit {0})
  check_insert e username table columns =
      allowed (can_insert to_lowercase e.permissions username table columns)
        (denied "INSERT" username table columns)

  unfoldable pub check_update : Engine S → String → String → List String → Result (Unit {0})
  check_update e username table columns =
      allowed (can_update to_lowercase e.permissions username table columns)
        (denied "UPDATE" username table columns)

  unfoldable pub check_delete : Engine S → String → String → Result (Unit {0})
  check_delete e username table =
      allowed (can_delete to_lowercase e.permissions username table) (denied_delete username table)
