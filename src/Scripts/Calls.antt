-- ===== src/Scripts/Calls.antt =====
-- The registry of internal/scripts as its clients call it: whole calls, one at a time.
use server_assistant.Prelude.{ℕ, String, List, [], ◌∷◌}
use server_assistant.Scripts.Domain.{GrantScope}
use server_assistant.Scripts.Store.{Env, Sys}
use server_assistant.Scripts.Registry.{propose, edit, approve, deny, expire, execute}
use server_assistant.Scripts.Grants.{GrantTtls, issue_grant, touch_grant, revoke_grant}

pub data Call : Type 0 where
  propose_call : String → String → Call
  edit_call : String → String → String → Call
  approve_call : String → String → Call
  deny_call : String → String → String → Call
  expire_call : String → String → Call
  execute_call : String → String → Call
  issue_call : String → GrantScope → String → String → GrantTtls → Call
  touch_call : String → ℕ → Call
  revoke_call : String → Call

unfoldable pub perform : Env → Call → Sys → Sys
perform env (propose_call text actor) s = (propose env text actor s).0
perform env (edit_call id text actor) s = (edit env id text actor s).0
perform env (approve_call id actor) s = (approve env id actor s).0
perform env (deny_call id actor reason) s = (deny env id actor reason s).0
perform env (expire_call id actor) s = (expire env id actor s).0
perform env (execute_call id actor) s = (execute env id actor s).0
perform env (issue_call h scope key session_id ttls) s =
    (issue_grant env h scope key session_id ttls s).0
perform env (touch_call id at) s = (touch_grant env id at s).0
perform env (revoke_call id) s = (revoke_grant env id s).0

unfoldable pub run_calls : Env → List Call → Sys → Sys
run_calls env [] s = s
run_calls env (c ∷ cs) s = run_calls env cs (perform env c s)

-- Empty tables.
abbrev pub empty : Sys
empty = record { scripts = []; proposals = []; audit = []; grants = []; calls = 0; log = [] }
