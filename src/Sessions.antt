-- ===== src/Sessions.antt =====
-- apps/api/src/sessions/auth-session.repository.ts: the sessions of the users. A row keeps the
-- columns that the queries read; the ciphertexts, scopes and OAuth columns are carried as one value.
pub mod Active
mod Examples
use reputo.Prelude.{
  ℕ, ◌+◌, String, Bool, true, false, not, ◌&&◌, Option, none, some, List, [], ◌∷◌, str_eq, ltb,
  keep, find, count, or_else, is_some, if◌then◌else◌,
}

pub record Session : Type 0 where
  pub session_id : String
  pub user_id : String
  pub access_token : String
  pub refresh_token : String
  pub access_token_expires_at : ℕ
  pub refresh_token_expires_at : ℕ
  pub scope : List String
  pub last_refreshed_at : Option ℕ
  pub revoked_at : Option ℕ
  pub expires_at : ℕ

-- `AuthSessionCreateInput`
pub record SessionInput : Type 0 where
  pub session_id : String
  pub user_id : String
  pub access_token : String
  pub refresh_token : String
  pub access_token_expires_at : ℕ
  pub refresh_token_expires_at : ℕ
  pub scope : List String
  pub expires_at : ℕ

-- `AuthSessionUpdateAfterRefreshInput`
pub record RefreshInput : Type 0 where
  pub access_token : Option String
  pub refresh_token : Option String
  pub access_token_expires_at : Option ℕ
  pub refresh_token_expires_at : Option ℕ
  pub scope : Option (List String)
  pub last_refreshed_at : Option ℕ
  pub expires_at : Option ℕ

unfoldable pub create : SessionInput → List Session → Session × List Session
create input sessions =
    let session : Session = record {
      session_id = input.session_id;
      user_id = input.user_id;
      access_token = input.access_token;
      refresh_token = input.refresh_token;
      access_token_expires_at = input.access_token_expires_at;
      refresh_token_expires_at = input.refresh_token_expires_at;
      scope = input.scope;
      last_refreshed_at = none;
      revoked_at = none;
      expires_at = input.expires_at;
    } in
    (session, session ∷ sessions)

-- `revokedAt: IsNull(), expiresAt: MoreThan(now)`
abbrev pub is_active : ℕ → Session → Bool
is_active now s = not (is_some s.revoked_at) && ltb now s.expires_at

abbrev pub is_active_session : String → ℕ → Session → Bool
is_active_session id now s = str_eq s.session_id id && is_active now s

unfoldable pub find_active_by_session_id : String → ℕ → List Session → Option Session
find_active_by_session_id id now = find (is_active_session id now)

-- the assignments of `updateAfterRefresh`
unfoldable pub refreshed : RefreshInput → Session → Session
refreshed u s = record s {
  access_token = or_else u.access_token s.access_token;
  refresh_token = or_else u.refresh_token s.refresh_token;
  access_token_expires_at = or_else u.access_token_expires_at s.access_token_expires_at;
  refresh_token_expires_at = or_else u.refresh_token_expires_at s.refresh_token_expires_at;
  scope = or_else u.scope s.scope;
  last_refreshed_at = elim u.last_refreshed_at [ none ↦ s.last_refreshed_at | some at ↦ some at ];
  expires_at = or_else u.expires_at s.expires_at;
}

-- an update of the first row that passes a test
unfoldable pub update_first : (Session → Bool) → (Session → Session) → List Session → List Session
update_first p f [] = []
update_first p f (s ∷ sessions) = if p s then f s ∷ sessions else s ∷ update_first p f sessions

unfoldable pub update_after_refresh :
    String → ℕ → RefreshInput → List Session → Option Session × List Session
update_after_refresh id now u sessions = elim (find_active_by_session_id id now sessions) [
  | none ↦ (none, sessions)
  | some s ↦ (some (refreshed u s), update_first (is_active_session id now) (refreshed u) sessions)
]

-- an update of every row that passes a test
unfoldable pub update_all : (Session → Bool) → (Session → Session) → List Session → List Session
update_all p f [] = []
update_all p f (s ∷ sessions) = (if p s then f s else s) ∷ update_all p f sessions

abbrev pub revoked : ℕ → Session → Session
revoked at s = record s { revoked_at = some at; expires_at = at }

unfoldable pub revoke_by_session_id : String → ℕ → List Session → List Session
revoke_by_session_id id at =
    update_all (λ s. str_eq s.session_id id && not (is_some s.revoked_at)) (revoked at)

-- The number of rows that it revokes, and the rows afterwards.
unfoldable pub revoke_all_by_user_id : String → ℕ → List Session → ℕ × List Session
revoke_all_by_user_id user at sessions = (
  count (λ s. str_eq s.user_id user && is_active at s) sessions,
  update_all (λ s. str_eq s.user_id user && is_active at s) (revoked at) sessions,
)

unfoldable pub delete_expired : ℕ → List Session → List Session
delete_expired now = keep (λ s. not (ltb s.expires_at now))
