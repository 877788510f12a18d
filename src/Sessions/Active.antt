-- ===== src/Sessions/Active.antt =====
-- Which sessions stay active (auth-session.repository.ts).
use reputo.Prelude.{
  ℕ, ◌≤◌, String, ◌&&◌, ◌≡◌, ◌≢◌, refl, none, List, [], ◌∷◌, arith, str_eq, str_eq_iff, count, keep,
  not,
}
use reputo.Sessions.{
  Session, RefreshInput, is_active, find_active_by_session_id, update_after_refresh, update_all,
  revoke_by_session_id, revoke_all_by_user_id, delete_expired,
}

-- the active sessions of a user
abbrev pub active_count : String → ℕ → List Session → ℕ
active_count user now = count (λ s. str_eq s.user_id user && is_active now s)

pub none_left :
    (user : String) (at now : ℕ) (sessions : List Session)
    → at ≤ now
    → active_count user now (revoke_all_by_user_id user at sessions).1 ≡ 0
unfolding revoke_all_by_user_id update_all
none_left user at now [] h = refl
none_left user at now (s ∷ sessions) h = ground (arith, none_left user at now sessions)

others_kept :
    (user other : String) (at now : ℕ) (sessions : List Session)
    → other ≢ user
    → active_count other now (revoke_all_by_user_id user at sessions).1
      ≡ active_count other now sessions
unfolding revoke_all_by_user_id update_all
others_kept user other at now [] ne = refl
others_kept user other at now (s ∷ sessions) ne = ground (
  arith,
  others_kept user other at now sessions,
  str_eq_iff s.user_id user,
  str_eq_iff s.user_id other,
)

others_unchanged :
    (user : String) (at : ℕ) (sessions : List Session)
    → keep (λ s. not (str_eq s.user_id user)) (revoke_all_by_user_id user at sessions).1
      ≡ keep (λ s. not (str_eq s.user_id user)) sessions
unfolding revoke_all_by_user_id update_all
others_unchanged user at [] = refl
others_unchanged user at (s ∷ sessions) = ground (arith, others_unchanged user at sessions)

-- Revoking all sessions of a user reports how many were active, leaves none of them active at that
-- time or later, does not change how many sessions of another user are active at any time, and
-- leaves the sessions of other users as they were, in every column and in their order.
pub revoke_all_lem :
    (user other : String) (at now t : ℕ) (sessions : List Session)
    → at ≤ now
    → other ≢ user
    → ((revoke_all_by_user_id user at sessions).0 ≡ active_count user at sessions)
      × (active_count user now (revoke_all_by_user_id user at sessions).1 ≡ 0)
      × (active_count other t (revoke_all_by_user_id user at sessions).1
          ≡ active_count other t sessions)
      × (keep (λ s. not (str_eq s.user_id user)) (revoke_all_by_user_id user at sessions).1
          ≡ keep (λ s. not (str_eq s.user_id user)) sessions)
unfolding revoke_all_by_user_id
revoke_all_lem user other at now t sessions h ne = (
  refl,
  none_left user at now sessions h,
  others_kept user other at t sessions ne,
  others_unchanged user at sessions,
)

dead_after_revoke :
    (id : String) (at now : ℕ) (sessions : List Session)
    → find_active_by_session_id id now (revoke_by_session_id id at sessions) ≡ none
unfolding find_active_by_session_id revoke_by_session_id update_all
dead_after_revoke id at now [] = refl
dead_after_revoke id at now (s ∷ sessions) = ground (arith, dead_after_revoke id at now sessions)

-- A session that was revoked by its id is not found by any request, and a token refresh of it at
-- any time finds nothing and changes nothing.
pub revoke_by_session_id_lem :
    (id : String) (at now : ℕ) (u : RefreshInput) (sessions : List Session)
    → let after = revoke_by_session_id id at sessions in
      (find_active_by_session_id id now after ≡ none)
      × (update_after_refresh id now u after ≡ (none, after))
unfolding update_after_refresh
revoke_by_session_id_lem id at now u sessions =
    (dead_after_revoke id at now sessions, ground (arith, dead_after_revoke id at now sessions))

-- The sweep of expired rows never changes what a request finds, at that time or later.
pub find_active-delete_expired :
    (id : String) (swept now : ℕ) (sessions : List Session)
    → swept ≤ now
    → find_active_by_session_id id now (delete_expired swept sessions)
      ≡ find_active_by_session_id id now sessions
unfolding find_active_by_session_id delete_expired
find_active-delete_expired id swept now [] h = refl
find_active-delete_expired id swept now (s ∷ sessions) h =
    ground (arith, find_active-delete_expired id swept now sessions)
