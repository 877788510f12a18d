-- ===== src/Sessions/Examples.antt =====
-- Concrete sessions, and what the theorems say of them.
use reputo.Prelude.{
  keep, not, str_eq, ℕ, String, ◌≡◌, refl, none, some, List, [], ◌∷◌, arith, differ,
}
use reputo.Sessions.{
  Session, RefreshInput, find_active_by_session_id, update_after_refresh, revoke_by_session_id,
  revoke_all_by_user_id, delete_expired,
}
use reputo.Sessions.Active.{
  active_count, revoke_all_lem, revoke_by_session_id_lem, find_active-delete_expired,
}

abbrev session_of : String → String → ℕ → Session
session_of id user expires = record {
  session_id = id;
  user_id = user;
  access_token = "a";
  refresh_token = "r";
  access_token_expires_at = 10;
  refresh_token_expires_at = expires;
  scope = [];
  last_refreshed_at = none;
  revoked_at = none;
  expires_at = expires;
}

abbrev three_sessions : List Session
three_sessions = session_of "x" "ann" 90 ∷ session_of "y" "bob" 90 ∷ session_of "z" "ann" 20 ∷ []

revoke_all_lem_example :
    ((revoke_all_by_user_id "ann" 30 three_sessions).0 ≡ active_count "ann" 30 three_sessions)
    × (active_count "ann" 40 (revoke_all_by_user_id "ann" 30 three_sessions).1 ≡ 0)
    × (active_count "bob" 50 (revoke_all_by_user_id "ann" 30 three_sessions).1
        ≡ active_count "bob" 50 three_sessions)
    × (keep (λ s. not (str_eq s.user_id "ann")) (revoke_all_by_user_id "ann" 30 three_sessions).1
        ≡ keep (λ s. not (str_eq s.user_id "ann")) three_sessions)
revoke_all_lem_example =
    revoke_all_lem "ann" "bob" 30 40 50 three_sessions (omega arith) (differ "bob" "ann" refl)

abbrev longer : RefreshInput
longer = record {
  access_token = some "b";
  refresh_token = none;
  access_token_expires_at = none;
  refresh_token_expires_at = none;
  scope = none;
  last_refreshed_at = some 30;
  expires_at = some 900;
}

revoke_by_session_id_lem_example :
    (find_active_by_session_id "x" 30 (revoke_by_session_id "x" 20 three_sessions) ≡ none)
    × (update_after_refresh "x" 30 longer (revoke_by_session_id "x" 20 three_sessions)
        ≡ (none, revoke_by_session_id "x" 20 three_sessions))
revoke_by_session_id_lem_example = revoke_by_session_id_lem "x" 20 30 longer three_sessions

find_active-delete_expired_example :
    find_active_by_session_id "x" 40 (delete_expired 30 three_sessions)
    ≡ find_active_by_session_id "x" 40 three_sessions
find_active-delete_expired_example =
    find_active-delete_expired "x" 30 40 three_sessions (omega arith)
