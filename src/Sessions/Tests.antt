-- ===== src/Sessions/Tests.antt =====
-- The tokens of a short history.
use heliondb.Base.{◌≡◌, List, [], ◌∷◌, none, arith}
use heliondb.Sessions.{new, verify_token}
use heliondb.Sessions.Laws.{Event, login, logout, run, owner, run-new-owner}

abbrev history : List Event
history = login "ada" ∷ login "bob" ∷ logout 1 ∷ []

run-new-owner_example : verify_token (run new history) 2 ≡ owner 1 2 none history
run-new-owner_example = run-new-owner history 2 (omega arith)
