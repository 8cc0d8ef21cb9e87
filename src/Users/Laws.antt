-- ===== src/Users/Laws.antt =====
-- The names of the users differ, whatever is done to the store.
use heliondb.Base.{
  ◌≤◌, String, true, false, not, ◌||◌, none, List, [], ◌∷◌, ◌++◌, ◌≡◌, ◌↔◌, refl, arith,
  if◌then◌else◌, any, find?, retain, length,
}
use heliondb.Base.Text.{eq_ignore_ascii_case, eq_ignore_ascii_case_iff}
use heliondb.Error.{Result, ok, err}
use heliondb.Users.{User, UserStore, is_named, get_user, user_exists, insert_user, drop_user}

-- No two users have the same name up to case.
abbrev pub IsDistinct : List User → Type 0
IsDistinct [] = Unit
IsDistinct (u ∷ users) = (any (is_named u.username) users ≡ false) × IsDistinct users

any-snoc :
    (n : String) (users : List User) (u : User)
    → any (is_named n) (users ++ u ∷ []) ≡ any (is_named n) users || is_named n u
any-snoc n [] u = ground arith
any-snoc n (w ∷ users) u = ground (arith, any-snoc n users u)

named_comm : (a b : User) → is_named a.username b ≡ is_named b.username a
named_comm a b = ground (
  arith,
  eq_ignore_ascii_case_iff a.username b.username,
  eq_ignore_ascii_case_iff b.username a.username,
)

snoc-IsDistinct :
    (users : List User) (u : User)
    → IsDistinct users
    → any (is_named u.username) users ≡ false
    → IsDistinct (users ++ u ∷ [])
snoc-IsDistinct [] u d h = (refl, tt)
snoc-IsDistinct (w ∷ users) u d h =
    ground (arith, any-snoc w.username users u, named_comm w u, snoc-IsDistinct users u d.1)

any-retain :
    (n m : String) (users : List User)
    → any (is_named m) users ≡ false
    → any (is_named m) (retain (λ u. not (is_named n u)) users) ≡ false
any-retain n m [] h = refl
any-retain n m (u ∷ users) h = ground (arith, any-retain n m users)

retain-IsDistinct :
    (n : String) (users : List User)
    → IsDistinct users
    → IsDistinct (retain (λ u. not (is_named n u)) users)
retain-IsDistinct n [] d = tt
retain-IsDistinct n (u ∷ users) d =
    ground (arith, retain-IsDistinct n users d.1, any-retain n u.username users)

any-retain_self :
    (n : String) (users : List User)
    → any (is_named n) (retain (λ u. not (is_named n u)) users) ≡ false
any-retain_self n [] = refl
any-retain_self n (u ∷ users) = ground (arith, any-retain_self n users)

-- What an insertion and a removal make of the store, whether they succeed or fail.
abbrev pub Inserted : UserStore → User → Result UserStore → Type 0
Inserted s user (ok t) = IsDistinct t.users × (t.users ≡ s.users ++ user ∷ [])
Inserted s user (err _) = user_exists s user.username ≡ true

abbrev pub Dropped : UserStore → String → Result UserStore → Type 0
Dropped s n (ok t) =
    IsDistinct t.users
    × (user_exists s n ≡ true)
    × ((m : String) → get_user t m ≡ (if eq_ignore_ascii_case m n then none else get_user s m))
Dropped s n (err _) = user_exists s n ≡ false

find?-retain :
    (n : String) (users : List User) (m : String)
    → find? (is_named m) (retain (λ u. not (is_named n u)) users)
      ≡ (if eq_ignore_ascii_case m n then none else find? (is_named m) users)
find?-retain n [] m = ground arith
find?-retain n (u ∷ users) m = ground (
  arith,
  find?-retain n users m,
  eq_ignore_ascii_case_iff u.username n,
  eq_ignore_ascii_case_iff u.username m,
  eq_ignore_ascii_case_iff m n,
)

length-retain :
    (n : String) (users : List User)
    → length (retain (λ u. not (is_named n u)) users) ≤ length users
length-retain n [] = omega arith
length-retain n (u ∷ users) = ground (arith, length-retain n users)

same_length-any :
    (n : String) (users : List User)
    → (length (retain (λ u. not (is_named n u)) users) ≡ length users)
      ↔ (any (is_named n) users ≡ false)
same_length-any n [] = (λ _. refl, λ _. refl)
same_length-any n (u ∷ users) = ground (arith, same_length-any n users, length-retain n users)

-- An insertion adds the user at the end, and fails only where the name is taken, up to case. A
-- removal takes out every user of the name, up to case, and no other, and fails only where there
-- is none. Both keep the names of all users distinct up to case.
pub insert_drop-IsDistinct :
    (s : UserStore) (user : User) (n : String)
    → IsDistinct s.users
    → Inserted s user (insert_user s user) × Dropped s n (drop_user s n)
unfolding insert_user drop_user
insert_drop-IsDistinct s user n d = (
  ground (arith, snoc-IsDistinct s.users user d),
  ground (arith, retain-IsDistinct n s.users d, same_length-any n s.users, find?-retain n s.users),
)
