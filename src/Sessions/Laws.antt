-- ===== src/Sessions/Laws.antt =====
-- A token stands for the user who logged in, from the login until its removal.
use heliondb.Base.{
  ℕ, ◌+◌, ◌^◌, ◌<◌, String, Option, none, some, List, [], ◌∷◌, ◌≡◌, refl, ap₂, ◌∙◌, arith, length,
  ◌==◌, ==_iff, if◌then◌else◌,
}
use heliondb.Base.HashMap.{get-insert, get-remove}
use heliondb.Sessions.{SessionManager, new, create_session, verify_token, remove_session}

pub data Event : Type 0 where
  login : String → Event
  logout : ℕ → Event

abbrev pub step : SessionManager → Event → SessionManager
step s (login username) = (create_session s username).1
step s (logout token) = remove_session s token

abbrev pub run : SessionManager → List Event → SessionManager
run s [] = s
run s (e ∷ events) = run (step s e) events

-- What a list of events says of a token: the specification of the manager.
abbrev pub owner : ℕ → ℕ → Option String → List Event → Option String
owner next token current [] = current
owner next token current (login username ∷ events) =
    owner (next + 1) token (if next == token then some username else current) events
owner next token current (logout t ∷ events) =
    owner next token (if t == token then none else current) events

verify-create :
    (s : SessionManager) (username : String) (token : ℕ)
    → verify_token (create_session s username).1 token
      ≡ (if s.next_token == token then some username else verify_token s token)
unfolding verify_token create_session
verify-create s username token =
    get-insert ◌==◌ ==_iff s.next_token token username s.active_sessions

verify-remove :
    (s : SessionManager) (t token : ℕ)
    → verify_token (remove_session s t) token ≡ (if t == token then none else verify_token s token)
unfolding verify_token remove_session
verify-remove s t token = get-remove ◌==◌ ==_iff t token s.active_sessions

next-create :
    (s : SessionManager) (username : String)
    → s.next_token + 1 < 2 ^ 64
    → (create_session s username).1.next_token ≡ s.next_token + 1
unfolding create_session
next-create s username h = omega arith

next-remove : (s : SessionManager) (t : ℕ) → (remove_session s t).next_token ≡ s.next_token
unfolding remove_session
next-remove s t = refl

run-owner :
    (s : SessionManager) (events : List Event) (token : ℕ)
    → s.next_token + length events < 2 ^ 64
    → verify_token (run s events) token ≡ owner s.next_token token (verify_token s token) events
run-owner s [] token h = refl
run-owner s (login username ∷ events) token h =
    let s' = (create_session s username).1 in
    run-owner s' events token (omega (arith, next-create s username))
    ∙ ap₂ (λ n o. owner n token o events) (next-create s username (omega arith))
        (verify-create s username token)
run-owner s (logout t ∷ events) token h =
    run-owner (remove_session s t) events token (omega (arith, next-remove s t))
    ∙ ap₂ (λ n o. owner n token o events) (next-remove s t) (verify-remove s t token)

-- After any sequence of logins and logouts, short of the wrap-around of the counter, a token is
-- valid for exactly the user whose login it came from, and no longer once it was logged out.
pub run-new-owner :
    (events : List Event) (token : ℕ)
    → length events + 1 < 2 ^ 64
    → verify_token (run new events) token ≡ owner 1 token none events
unfolding verify_token
run-new-owner events token h = run-owner new events token (omega arith)
