-- ===== src/Tests/Scripts.antt =====
-- Concrete runs of internal/scripts.
use server_assistant.Prelude.{
  ◌↔◌, ℕ, ◌≡◌, refl, true, some, none, String, List, [], ◌∷◌, ◌==◌, if◌then◌else◌,
}
use server_assistant.Prelude.Dict.{lookup, insert}
use server_assistant.Prelude.Int.{pos}
use server_assistant.Scripts.Domain.{Proposal, Grant, awaiting_approval, approved, standing}
use server_assistant.Scripts.Store.{Env, DryRun, exited, Sys, done, failure, store_failed, is_there}
use server_assistant.Scripts.Registry.{
  transition, advance, run_dry_run_and_advance, propose, approve, moved,
}
use server_assistant.Scripts.Grants.{issue_grant, check_grant}
use server_assistant.Scripts.Calls.{
  Call, propose_call, approve_call, execute_call, issue_call, perform, run_calls, empty,
}
use server_assistant.Scripts.Gate.{IsGated, clean_seen, approval_seen}
use server_assistant.Scripts.Execution.{run_needs_approval}
use server_assistant.Prelude.{◌≢◌}
use server_assistant.Scripts.Grants.{revoke_grant}
use server_assistant.Scripts.Revocation.{revocation_is_final}
use server_assistant.Scripts.Diff.{count_lines}
use server_assistant.Scripts.Calls.{edit_call}
use server_assistant.Scripts.Store.{find_approved}
use server_assistant.Scripts.Registry.{edit, edit_to}
use server_assistant.Scripts.Access.{IsUsable, check_grant_iff, granted_is_clean}
use server_assistant.Scripts.Audit.{IsAudited, transition-IsAudited, transition_unaudited}

abbrev clean_run : DryRun
clean_run = record { is_clean = true; reasons = []; warnings = []; transcript = [] }

-- Ids are told apart by the count of store calls at which they are drawn.
abbrev nth_id : ℕ → String
nth_id n = if n == 1 then "p-1" else if n == 10 then "g-10" else "audit"

abbrev test_env : Env
test_env = record {
  hash = λ s. s;
  decimal = λ n. "n";
  now = λ n. n;
  new_id = nth_id;
  ok = λ n. true;
  dry_run = λ n body. some clean_run;
  run = λ n body. exited 0 true;
  check = λ n body. none;
}

abbrev calls : List Call
calls = propose_call "docker ps" "llm" ∷ approve_call "p-1" "ana" ∷ []

abbrev calls_and_run : List Call
calls_and_run =
    propose_call "docker ps" "llm" ∷ approve_call "p-1" "ana" ∷ execute_call "p-1" "ana" ∷ []

run_needs_approval_example : IsGated test_env (run_calls test_env calls_and_run empty).log
run_needs_approval_example = run_needs_approval test_env calls_and_run

abbrev final : Proposal
final = record {
  id = "p-1";
  script_hash = "docker ps";
  state = approved;
  created_at = 1;
  updated_at = 8;
  reject_reasons = [];
  warnings = [];
  transcript = [];
  approved_by = "ana";
  approved_at = some 8;
  denied_by = "";
  denied_at = none;
  deny_reason = "";
}

final_stored : lookup "p-1" (run_calls test_env calls empty).proposals ≡ some final
unfolding run_calls perform propose approve run_dry_run_and_advance advance transition lookup insert
final_stored = refl

abbrev granted_calls : List Call
granted_calls =
    propose_call "docker ps" "llm"
    ∷ approve_call "p-1" "ana"
    ∷ issue_call "docker ps" standing "key" "" (record { session = pos 0; standing = pos 100 })
    ∷ []

abbrev grant_now : Grant
grant_now = record {
  id = "g-10";
  script_hash = "docker ps";
  scope = standing;
  session_id = "";
  api_key_id = "key";
  granted_at = 10;
  expires_at = some 110;
  last_run_at = none;
  revoked_at = none;
}

-- The grant can be used at the time 20.
granted_now :
    (check_grant test_env "g-10" 20 (run_calls test_env granted_calls empty)).1 ≡ done grant_now
unfolding run_calls perform propose approve run_dry_run_and_advance advance transition lookup insert
    issue_grant check_grant
granted_now = refl

check_grant_iff_example :
    ((check_grant test_env "g-10" 20 (run_calls test_env granted_calls empty)).1 ≡ done grant_now)
    ↔ IsUsable "g-10" 20 grant_now (run_calls test_env granted_calls empty)
check_grant_iff_example =
    check_grant_iff test_env "g-10" 20 grant_now (run_calls test_env granted_calls empty) refl refl

granted_is_clean_example :
    (clean_seen test_env "docker ps" (run_calls test_env granted_calls empty).log ≡ true)
    × (approval_seen "docker ps" (run_calls test_env granted_calls empty).log ≡ true)
granted_is_clean_example = granted_is_clean test_env granted_calls "g-10" 20 grant_now granted_now

abbrev pending_row : Proposal
pending_row = record final { state = awaiting_approval; approved_by = ""; approved_at = none }

abbrev one_row : Sys
one_row = record empty { proposals = ("p-1", pending_row) ∷ [] }

row_there : is_there (lookup "p-1" one_row.proposals) ≡ true
unfolding lookup
row_there = refl

abbrev approval_moved : Proposal
approval_moved = moved approved 0 pending_row

transition_done :
    (transition test_env pending_row approved "ana" "approved" one_row).1 ≡ done approval_moved
unfolding transition lookup
transition_done = refl

transition-IsAudited_example :
    IsAudited test_env pending_row approved "ana" "approved" one_row approval_moved
      (transition test_env pending_row approved "ana" "approved" one_row).0
transition-IsAudited_example =
    transition-IsAudited test_env pending_row approved "ana" "approved" one_row approval_moved
      row_there transition_done

abbrev broken_env : Env
broken_env = record test_env { ok = λ n. n == 0 }

transition_unaudited_example :
    let (t, result) = transition broken_env pending_row approved "ana" "approved" one_row in
    (result ≡ failure store_failed)
    × (lookup "p-1" t.proposals ≡ some approval_moved)
    × (t.audit ≡ [])
transition_unaudited_example =
    transition_unaudited broken_env pending_row approved "ana" "approved" one_row row_there refl
      refl refl

abbrev one_grant : Sys
one_grant = record one_row { grants = ("g-10", grant_now) ∷ [] }

grant_there : lookup "g-10" one_grant.grants ≡ some grant_now
unfolding lookup
grant_there = refl

revocation_is_final_example :
    (check_grant test_env "g-10" 20
      (run_calls test_env calls (revoke_grant test_env "g-10" one_grant).0)).1
    ≢ done grant_now
revocation_is_final_example =
    revocation_is_final test_env "g-10" grant_now one_grant calls 20 grant_now grant_there refl

three_lines : count_lines "a\nb\n" ≡ 3
three_lines = refl

-- Two proposals of one text are approved, and the first is edited: the hash of the old text still
-- has an approved proposal.
abbrev edited_twin : List Call
edited_twin =
    propose_call "docker ps" "llm"
    ∷ propose_call "docker ps" "llm"
    ∷ approve_call "p-1" "ana"
    ∷ approve_call "audit" "ana"
    ∷ edit_call "p-1" "docker ps -a" "ana"
    ∷ []

old_hash_still_approved :
    find_approved "docker ps" (run_calls test_env edited_twin empty).proposals ≡ true
unfolding run_calls perform propose approve edit edit_to run_dry_run_and_advance advance transition
    lookup insert
old_hash_still_approved = refl

-- Every call above made all of its store calls, the edit among them.
all_calls_made : (run_calls test_env edited_twin empty).calls ≡ 29
unfolding run_calls perform propose approve edit edit_to run_dry_run_and_advance advance transition
    lookup insert
all_calls_made = refl
