-- ===== src/Users/Tests.antt =====
-- The laws of the accounts at a store of two users, with hashes that show the password.
use heliondb.Base.{◌≡◌, refl, String, Bool, [], ◌∷◌, inr}
use heliondb.Base.Text.{str_eq, str_eq_iff, concat, eq_ignore_ascii_case}
use heliondb.Error.{Result, ok}
use heliondb.Users.{User, UserStore, insert_user, drop_user, update_password}
use heliondb.Users.Laws.{IsDistinct, Inserted, Dropped, insert_drop-IsDistinct}
use heliondb.Users.Passwords.{Sound, LogsIn, new_password-LogsIn}

abbrev plain_hash : String → String → Result String
plain_hash password salt = ok (concat "plain:" password)

abbrev matches : String → String → Bool
matches hash password = str_eq hash (concat "plain:" password)

plain_hash-Sound : Sound plain_hash matches
plain_hash-Sound password salt hash h = (str_eq_iff hash (concat "plain:" password)).1 (cc (h))

abbrev user : String → String → User
user name password = record { username = name; password_hash = concat "plain:" password }

abbrev two_users : UserStore
two_users = record { users = user "ada" "one" ∷ user "bob" "two" ∷ [] }

two_users-IsDistinct : IsDistinct two_users.users
unfolding eq_ignore_ascii_case
two_users-IsDistinct = (refl, (refl, tt))

insert_drop-IsDistinct_example :
    Inserted two_users (user "eve" "three") (insert_user two_users (user "eve" "three"))
    × Dropped two_users "ADA" (drop_user two_users "ADA")
insert_drop-IsDistinct_example =
    insert_drop-IsDistinct two_users (user "eve" "three") "ADA" two_users-IsDistinct

abbrev changed : UserStore
changed = record { users = user "ada" "one" ∷ user "bob" "four" ∷ [] }

updated : update_password plain_hash matches "salt" two_users "Bob" "four" ≡ ok changed
unfolding update_password eq_ignore_ascii_case
updated = refl

new_password-LogsIn_example : LogsIn plain_hash matches two_users changed "Bob" "four"
new_password-LogsIn_example =
    new_password-LogsIn plain_hash matches two_users changed "salt" "Bob" "four" plain_hash-Sound
      (inr updated)
