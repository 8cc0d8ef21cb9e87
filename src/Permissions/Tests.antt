-- ===== src/Permissions/Tests.antt =====
-- The laws of permissions at a concrete store, with names that are lower case already.
use heliondb.Base.{String, List, [], ◌∷◌}
use heliondb.Permissions.{Permission, PermissionStore}

abbrev same : String → String
same name = name

abbrev store : PermissionStore
store = record {
  grants = (("ada", "users"), Permission.select ("id" ∷ []) ∷ Permission.delete ∷ []) ∷ [];
}

abbrev names : List String
names = "id" ∷ "name" ∷ []
