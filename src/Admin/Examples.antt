-- ===== src/Admin/Examples.antt =====
-- Concrete allowlists, and what the theorems say of them.
use reputo.Prelude.{
  ◌≤◌, String, ◌≡◌, refl, true, none, some, List, [], ◌∷◌, arith, differ, str_eq_iff, ok,
}
use reputo.Sessions
use reputo.Sessions.{Session}
use reputo.Sessions.Active.{active_count}
use reputo.Admin.Allowlist.{
  owner, admin, AllowlistRow, EmailRules, count_active_owners, find_active_by_provider_email,
  find_by_provider_email, update_and_read, soft_revoke, create_admin, update,
}
use reputo.Admin.Service.{
  User, State, target, require_provider, normalize_email_or_throw, find_user, check_remove,
  remove_admin, write_remove, revoke_target, seed_owner,
}
use reputo.Admin.Counts.{IsUnique}
use reputo.Admin.Owners.{IsAdministered}
use reputo.Admin.Administered.{AdminOp, add, change, remove, run_all, run_all-IsAdministered}
use reputo.Admin.Removal.{remove_admin_lem, seed_owner-owned}

-- Rules for addresses that are normalized already.
abbrev plain : EmailRules
plain = record { normalize = λ email. email; is_email = λ email. true }

abbrev owner_row : String → AllowlistRow
owner_row email = record {
  provider = "deep-id";
  email = email;
  role = owner;
  invited_by = none;
  invited_at = 1;
  revoked_at = none;
  revoked_by = none;
}

abbrev ann : User
ann = record { id = "1"; provider = "deep-id"; email = some "ann@x" }

abbrev bob : User
bob = record { id = "2"; provider = "deep-id"; email = some "bob@x" }

abbrev bobs_session : Session
bobs_session = record {
  session_id = "s";
  user_id = "2";
  access_token = "a";
  refresh_token = "r";
  access_token_expires_at = 50;
  refresh_token_expires_at = 90;
  scope = [];
  last_refreshed_at = none;
  revoked_at = none;
  expires_at = 90;
}

abbrev two_owners : State
two_owners = record {
  allowlist = owner_row "ann@x" ∷ owner_row "bob@x" ∷ [];
  users = ann ∷ bob ∷ [];
  sessions = bobs_session ∷ [];
}

two_owners-IsUnique : IsUnique two_owners.allowlist
two_owners-IsUnique p e =
    ground (arith, str_eq_iff "ann@x" e, str_eq_iff "bob@x" e, differ "ann@x" "bob@x" refl)

two_owners-IsAdministered : IsAdministered two_owners.allowlist
unfolding count_active_owners
two_owners-IsAdministered = record { unique = two_owners-IsUnique; owned = omega arith }

-- Bob is removed, and then Ann tries to step down.
abbrev some_ops : List AdminOp
some_ops =
    remove ann 10 "deep-id" "bob@x"
    ∷ change ann "deep-id" "ann@x" admin
    ∷ add ann 20 "deep-id" "cay@x" none
    ∷ []

run_all-IsAdministered_example : IsAdministered (run_all plain some_ops two_owners).allowlist
run_all-IsAdministered_example =
    run_all-IsAdministered plain some_ops two_owners two_owners-IsAdministered

remove_admin_lem_example :
    (find_active_by_provider_email plain "deep-id" "bob@x"
        (remove_admin plain ann 10 "deep-id" "bob@x" two_owners).1.allowlist
      ≡ none)
    × (active_count "2" 20 (remove_admin plain ann 10 "deep-id" "bob@x" two_owners).1.sessions ≡ 0)
unfolding target require_provider normalize_email_or_throw find_user check_remove remove_admin
    write_remove revoke_target soft_revoke update_and_read update find_active_by_provider_email
    count_active_owners Sessions.revoke_all_by_user_id
remove_admin_lem_example =
    remove_admin_lem plain ann bob 10 20 "deep-id" "bob@x" two_owners {p = "deep-id"} {e = "bob@x"}
      (ann ∷ []) [] refl refl refl refl refl refl refl (omega arith)

abbrev nobody : State
nobody = record { allowlist = []; users = []; sessions = [] }

seed_owner-owned_example :
    1
    ≤ count_active_owners "deep-id" (seed_owner plain 1 "deep-id" (some "ann@x") nobody).1.allowlist
unfolding seed_owner find_by_provider_email create_admin
seed_owner-owned_example = seed_owner-owned plain 1 "deep-id" "ann@x" nobody refl

-- Two removals whose checks both come before either write leave no owner.
removals_race :
    count_active_owners "deep-id"
      (write_remove plain bob 11 "deep-id" "ann@x"
        (write_remove plain ann 10 "deep-id" "bob@x" two_owners).1).1.allowlist
    ≡ 0
unfolding count_active_owners write_remove soft_revoke update_and_read update revoke_target
    find_user Sessions.revoke_all_by_user_id
removals_race = refl

checks_pass :
    (check_remove plain ann "deep-id" "bob@x" two_owners ≡ ok (owner_row "bob@x"))
    × (check_remove plain bob "deep-id" "ann@x" two_owners ≡ ok (owner_row "ann@x"))
unfolding check_remove count_active_owners find_active_by_provider_email
checks_pass = (refl, refl)
