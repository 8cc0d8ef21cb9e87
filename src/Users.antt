-- ===== src/Users.antt =====
-- storage/users.rs: user accounts, found by name up to ASCII case.
pub mod Laws
pub mod Passwords
mod Tests
use heliondb.Base.{
  ℕ, String, Bool, true, false, not, Option, none, some, List, [], ◌∷◌, ◌++◌, if◌then◌else◌, any,
  find?, retain, length, ◌==◌,
}
use heliondb.Base.Text.{eq_ignore_ascii_case}
use heliondb.Error.{Result, ok, err, ◌>>=◌, internal, text}

pub record User : Type 0 where
  pub username : String
  pub password_hash : String

pub record UserStore : Type 0 where
  pub users : List User

abbrev pub new : UserStore
new = record { users = [] }

-- The test of every lookup by name.
abbrev pub is_named : String → User → Bool
is_named username u = eq_ignore_ascii_case u.username username

abbrev pub get_user : UserStore → String → Option User
get_user s username = find? (is_named username) s.users

abbrev pub user_exists : UserStore → String → Bool
user_exists s username = any (is_named username) s.users

already_exists : String → Result UserStore
already_exists username =
    err (internal (text "User '" ∷ text username ∷ text "' already exists" ∷ []))

unfoldable pub insert_user : UserStore → User → Result UserStore
unfolding already_exists
insert_user s user =
    if user_exists s user.username
    then already_exists user.username
    else ok (record s { users = s.users ++ user ∷ [] })

not_found : {A : Type 0} → String → Result A
not_found username = err (internal (text "User '" ∷ text username ∷ text "' not found" ∷ []))

-- `retain` on the list, and an error if nothing went; the list is the same then.
unfoldable pub drop_user : UserStore → String → Result UserStore
unfolding not_found
drop_user s username =
    let rest = retain (λ u. not (is_named username u)) s.users in
    if length rest == length s.users then not_found username else ok (record s { users = rest })

-- `get_user_mut`: the first user of the name is changed in place.
unfoldable pub change_first : String → (User → User) → List User → List User
change_first username f [] = []
change_first username f (u ∷ users) =
    let rest = change_first username f users in
    if is_named username u then f u ∷ users else u ∷ rest

abbrev user_count : UserStore → ℕ
user_count s = length s.users

-- A login without an account fails.
pub login : (String → String → Bool) → Option User → String → Bool
login verifies none password = false
login verifies (some u) password = verifies u.password_hash password

-- The password hashes are those of the crate `argon2`: `hash_password` of a password and a salt may
-- fail, and `verifies` is parsing a stored hash and comparing a password with it.
module _ (hash_password : String → String → Result String) (verifies : String → String → Bool) where
  -- `User::new`, with the salt that the system's generator gives.
  new_user : String → String → String → Result User
  new_user salt username password = hash_password password salt >>= λ hash.
      ok (record { username = username; password_hash = hash })

  unfoldable pub create_user : String → UserStore → String → String → Result UserStore
  unfolding new_user already_exists
  create_user salt s username password =
      if user_exists s username
      then already_exists username
      else new_user salt username password >>= λ user.
          ok (record s { users = s.users ++ user ∷ [] })

  unfoldable pub update_password : String → UserStore → String → String → Result UserStore
  unfolding not_found change_first
  update_password salt s username new_password = elim (get_user s username) [
    | none ↦ not_found username
    | some _ ↦ hash_password new_password salt >>= λ hash. ok (record s {
      users = change_first username (λ u. record u { password_hash = hash }) s.users;
    })
  ]

  pub verify_login : UserStore → String → String → Bool
  unfolding login
  verify_login s username password = login verifies (get_user s username) password
