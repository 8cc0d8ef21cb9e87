-- ===== src/Users/Passwords.antt =====
-- Logins after an account is made and after a change of password.
use heliondb.Base.{
  String, Bool, true, false, none, some, List, [], ◌∷◌, ◌++◌, ◌≡◌, ◌≢◌, refl, ap, arith,
  if◌then◌else◌, Bool-cases, any, find?, subst, ◌⊎◌, inl, inr,
}
use heliondb.Base.Text.{eq_ignore_ascii_case, eq_ignore_ascii_case_iff, folded}
use heliondb.Error.{Result, ok, err}
use heliondb.Users.{
  User, UserStore, is_named, user_exists, change_first, create_user, update_password, login,
  verify_login,
}

pub find?-snoc :
    (n : String) (users : List User) (u : User)
    → find? (is_named n) (users ++ u ∷ []) ≡ (elim (find? (is_named n) users) [
      | some w ↦ some w
      | none ↦ if is_named n u then some u else none
    ])
find?-snoc n [] u = refl
find?-snoc n (w ∷ users) u = ground (arith, find?-snoc n users u)

pub find?-any :
    (n : String) (users : List User)
    → any (is_named n) users ≡ false
    → find? (is_named n) users ≡ none
find?-any n [] h = refl
find?-any n (u ∷ users) h = ground (arith, find?-any n users)

-- A login depends on the first user of the name.
login-snoc :
    (verifies : String → String → Bool) (n p : String) (users : List User) (u : User)
    → login verifies (find? (is_named n) (users ++ u ∷ [])) p ≡ (
        if any (is_named n) users
        then login verifies (find? (is_named n) users) p
        else if is_named n u
        then verifies u.password_hash p
        else false)
unfolding login
login-snoc verifies n p [] u = ground arith
login-snoc verifies n p (w ∷ users) u = ground (arith, login-snoc verifies n p users u)

login-none :
    (verifies : String → String → Bool) (n p : String) (users : List User)
    → any (is_named n) users ≡ false
    → login verifies (find? (is_named n) users) p ≡ false
unfolding login
login-none verifies n p users h = ground (arith, find?-any n users h)

change_self :
    (verifies : String → String → Bool) (n hash p : String) (users : List User)
    → verifies hash p ≡ true
    → find? (is_named n) users ≢ none
    → login verifies
        (find? (is_named n) (change_first n (λ u. record u { password_hash = hash }) users))
        p
      ≡ true
unfolding login change_first
change_self verifies n hash p [] v found = absurd (found refl)
change_self verifies n hash p (u ∷ users) v found =
    ground (arith, change_self verifies n hash p users v)

change_other :
    (verifies : String → String → Bool) (n hash p : String) (users : List User) (other : String)
    → folded other ≢ folded n
    → login verifies
        (find? (is_named other) (change_first n (λ u. record u { password_hash = hash }) users))
        p
      ≡ login verifies (find? (is_named other) users) p
unfolding login change_first
change_other verifies n hash p [] other ne = refl
change_other verifies n hash p (u ∷ users) other ne = ground (
  arith,
  change_other verifies n hash p users other ne,
  eq_ignore_ascii_case_iff u.username n,
  eq_ignore_ascii_case_iff u.username other,
)

-- A lookup does not tell apart the spellings of a name.
find?-folded :
    (users : List User) (n m : String)
    → folded n ≡ folded m
    → find? (is_named n) users ≡ find? (is_named m) users
find?-folded [] n m h = refl
find?-folded (u ∷ users) n m h = ground (
  arith,
  find?-folded users n m h,
  eq_ignore_ascii_case_iff u.username n,
  eq_ignore_ascii_case_iff u.username m,
)

module _ (hash_password : String → String → Result String) (verifies : String → String → Bool) where
  -- What a hash has to do: the hash of a password verifies this password.
  abbrev pub Sound : Type 0
  Sound =
      (password salt hash : String)
      → hash_password password salt ≡ ok hash
      → verifies hash password ≡ true

  -- The new password logs in, whatever else does so does it under every spelling of the name, and
  -- the logins under other names are as before.
  abbrev pub LogsIn : UserStore → UserStore → String → String → Type 0
  LogsIn s t username password =
      (verify_login hash_password verifies t username password ≡ true)
      × ((other p : String)
          → verify_login hash_password verifies t other p ≡ (
              if eq_ignore_ascii_case other username
              then verify_login hash_password verifies t username p
              else verify_login hash_password verifies s other p))

  from_others :
      (s t : UserStore) (username password : String)
      → verify_login hash_password verifies t username password ≡ true
      → ((other p : String)
          → folded other ≢ folded username
          → verify_login hash_password verifies t other p
            ≡ verify_login hash_password verifies s other p)
      → LogsIn s t username password
  unfolding verify_login
  from_others s t username password h others = (
    h,
    λ other p. elim (Bool-cases (eq_ignore_ascii_case other username)) [
      | inl same ↦ rw same (
          ap (λ o. login verifies o p)
            (find?-folded t.users other username
              ((eq_ignore_ascii_case_iff other username).0 same)))
      | inr differ ↦
          rw differ
            (others other p (λ e. ground (arith, (eq_ignore_ascii_case_iff other username).1 e)))
    ],
  )

  created-LogsIn :
      (s : UserStore) (username password hash : String)
      → verifies hash password ≡ true
      → user_exists s username ≡ false
      → LogsIn s
          (record { users = s.users ++ record { username = username; password_hash = hash } ∷ [] })
          username
          password
  unfolding verify_login
  created-LogsIn s username password hash v free =
      let u : User = record { username = username; password_hash = hash } in
      from_others s (record { users = s.users ++ u ∷ [] }) username password
        (ground (
          arith,
          login-snoc verifies username password s.users u,
          eq_ignore_ascii_case_iff username username,
        ))
        (λ other p ne. ground (
          arith,
          login-snoc verifies other p s.users u,
          login-none verifies other p s.users,
          eq_ignore_ascii_case_iff username other,
        ))

  changed-LogsIn :
      (s : UserStore) (username password hash : String)
      → verifies hash password ≡ true
      → find? (is_named username) s.users ≢ none
      → LogsIn s
          (record {
            users = change_first username (λ u. record u { password_hash = hash }) s.users;
          })
          username
          password
  unfolding verify_login
  changed-LogsIn s username password hash v found =
      from_others s
        (record { users = change_first username (λ u. record u { password_hash = hash }) s.users })
        username password (change_self verifies username hash password s.users v found)
        (λ other p ne. change_other verifies username hash p s.users other ne)

  create_result :
      (s t : UserStore) (salt username password : String) (r : Result String)
      → Sound
      → hash_password password salt ≡ r
      → create_user hash_password verifies salt s username password ≡ ok t
      → LogsIn s t username password
  unfolding create_user
  create_result s t salt username password (err e) sound hr h = absurd (ground arith)
  create_result s t salt username password (ok hash) sound hr h =
      subst (λ (x : UserStore). LogsIn s x username password) (ground arith)
        (created-LogsIn s username password hash (sound password salt hash hr) (ground arith))

  update_result :
      (s t : UserStore) (salt username password : String) (r : Result String)
      → Sound
      → hash_password password salt ≡ r
      → update_password hash_password verifies salt s username password ≡ ok t
      → LogsIn s t username password
  unfolding update_password
  update_result s t salt username password (err e) sound hr h = absurd (ground arith)
  update_result s t salt username password (ok hash) sound hr h =
      subst (λ (x : UserStore). LogsIn s x username password) (ground arith)
        (changed-LogsIn s username password hash (sound password salt hash hr) (ground arith))

  -- After an account is created, and after its password is changed, it logs in with the new
  -- password, under every spelling of its name alike, and every user whose name differs logs in
  -- exactly as before. The hash of a password is assumed to verify this password.
  pub new_password-LogsIn :
      (s t : UserStore) (salt username password : String)
      → Sound
      → (create_user hash_password verifies salt s username password ≡ ok t)
        ⊎ (update_password hash_password verifies salt s username password ≡ ok t)
      → LogsIn s t username password
  new_password-LogsIn s t salt username password sound (inl created) =
      create_result s t salt username password (hash_password password salt) sound refl created
  new_password-LogsIn s t salt username password sound (inr updated) =
      update_result s t salt username password (hash_password password salt) sound refl updated
