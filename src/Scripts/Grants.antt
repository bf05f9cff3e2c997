-- ===== src/Scripts/Grants.antt =====
-- internal/scripts/grants.go: grants, bound to the hash of a script.
use server_assistant.Prelude.{
  ℕ, zero, suc, ◌+◌, String, Bool, true, false, not, ◌&&◌, Option, none, some, str_eq,
  if◌then◌else◌,
}
use server_assistant.Prelude.Int.{ℤ, pos, negsuc}
use server_assistant.Prelude.Dict.{lookup, insert}
use server_assistant.Scripts.Domain.{GrantScope, session, standing, Grant, is_expired, is_revoked}
use server_assistant.Scripts.Store.{
  grant_not_found, grant_revoked, grant_expired, grant_not_approved, session_required, store_failed,
  Result, failure, done, Env, Sys, and_then, bump, write, read, is_there, find_approved,
}

pub record GrantTtls : Type 0 where
  pub session : ℤ
  pub standing : ℤ

abbrev pub or_default : ℕ → ℤ → ℕ
or_default fallback (pos zero) = fallback
or_default fallback (pos (suc n)) = suc n
or_default fallback (negsuc n) = fallback

-- forScope, in nanoseconds: 90 days, or 4 hours, unless configured.
abbrev pub for_scope : GrantTtls → GrantScope → ℕ
for_scope ttls standing = or_default 7776000000000000 ttls.standing
for_scope ttls session = or_default 14400000000000 ttls.session

-- INSERT INTO grants
abbrev pub insert_grant : Env → Grant → Sys → Sys × Result {0} Unit
insert_grant env g s =
    if is_there (lookup g.id s.grants)
    then (bump s, failure store_failed)
    else write env (λ t. record t { grants = insert g.id g t.grants }) s

abbrev pub is_session : GrantScope → Bool
is_session session = true
is_session standing = false

-- IssueGrant
unfoldable pub issue_grant :
    Env → String → GrantScope → String → String → GrantTtls → Sys → Sys × Result Grant
issue_grant env h scope api_key_id session_id ttls s =
    let g : Grant = record {
      id = env.new_id s.calls;
      script_hash = h;
      scope = scope;
      session_id = session_id;
      api_key_id = api_key_id;
      granted_at = env.now s.calls;
      expires_at = some (env.now s.calls + for_scope ttls scope);
      last_run_at = none;
      revoked_at = none;
    } in
    if is_session scope && str_eq session_id ""
    then (s, failure session_required)
    else and_then (insert_grant env g s) (λ _ t. (t, done g))

-- The tests of CheckGrant on a grant that was found.
abbrev pub check_found : Env → ℕ → Grant → Sys → Sys × Result Grant
check_found env now g s =
    if is_revoked g
    then (s, failure grant_revoked)
    else if is_expired g now
    then (s, failure grant_expired)
    else if not (env.ok s.calls)
    then (bump s, failure store_failed)
    else if find_approved g.script_hash s.proposals
    then (bump s, done g)
    else (bump s, failure grant_not_approved)

-- CheckGrant
unfoldable pub check_grant : Env → String → ℕ → Sys → Sys × Result Grant
check_grant env id now s =
    and_then (read env grant_not_found (λ t. lookup id t.grants) s) (λ g t. check_found env now g t)

-- An update of the grant with this id; without such a row nothing is updated.
abbrev pub update_grant : (Grant → Grant) → String → Option Grant → Sys → Sys
update_grant f id none s = s
update_grant f id (some g) s = record s { grants = insert id (f g) s.grants }

-- TouchGrant
unfoldable pub touch_grant : Env → String → ℕ → Sys → Sys × Result {0} Unit
touch_grant env id at s =
    write env
      (λ t. update_grant (λ g. record g { last_run_at = some at }) id (lookup id t.grants) t) s

-- RevokeGrant
unfoldable pub revoke_grant : Env → String → Sys → Sys × Result {0} Unit
revoke_grant env id s =
    write env
      (λ t.
        update_grant (λ g. record g { revoked_at = some (env.now s.calls) }) id (lookup id t.grants)
          t)
      s
