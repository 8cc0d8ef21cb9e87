-- ===== src/Sessions.antt =====
-- protocol/auth.rs: the session tokens of authenticated connections.
pub mod Laws
mod Tests
use heliondb.Base.{ℕ, ◌+◌, ◌%◌, ◌^◌, String, Option, List, [], length, ◌==◌}
use heliondb.Base.HashMap
use heliondb.Base.HashMap.{HashMap}

pub record SessionManager : Type 0 where
  pub next_token : ℕ
  pub active_sessions : HashMap ℕ String

abbrev pub new : SessionManager
new = record { next_token = 1; active_sessions = [] }

-- The counter is a `u64` with its wrap-around.
pub create_session : SessionManager → String → ℕ × SessionManager
unfolding HashMap.insert HashMap.remove
create_session s username =
    let token = s.next_token in
    (
      token,
      record {
        next_token = (token + 1) % 2 ^ 64;
        active_sessions = HashMap.insert ◌==◌ token username s.active_sessions;
      },
    )

pub verify_token : SessionManager → ℕ → Option String
unfolding HashMap.get
verify_token s token = HashMap.get ◌==◌ token s.active_sessions

pub remove_session : SessionManager → ℕ → SessionManager
unfolding HashMap.remove
remove_session s token = record s { active_sessions = HashMap.remove ◌==◌ token s.active_sessions }

abbrev active_count : SessionManager → ℕ
active_count s = length s.active_sessions
