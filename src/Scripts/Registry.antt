-- ===== src/Scripts/Registry.antt =====
-- internal/scripts/registry.go: the operations on proposals. Between two calls of the store all
-- readings of the clock are one reading.
use server_assistant.Prelude.{
  ℕ, String, Bool, not, Option, none, some, List, [], ◌∷◌, concat, str_eq, if◌then◌else◌,
}
use server_assistant.Scripts.Domain.{
  Script, new_script, ProposalState, proposed, dry_run_ok, dry_run_failed, awaiting_approval,
  approved, denied, expired, running, succeeded, failed, precondition_failed, can_transition_to,
  state_eq, Proposal, AuditEntry,
}
use server_assistant.Scripts.Diff.{diff_summary}
use server_assistant.Scripts.Store.{
  invalid_transition, dry_run_required, identical, dry_run_failed_to_run, Result, failure, done,
  DryRun, RunOutcome, run_error, exited, Env, dry_ran, ran, Sys, and_then, upsert_script,
  get_script, insert_proposal, update_proposal, get_proposal, append_audit,
}

abbrev pub entry :
    Env → String → Option ProposalState → ProposalState → String → String → Sys → AuditEntry
entry env proposal_id from_state to_state actor reason s = record {
  id = env.new_id s.calls;
  proposal_id = proposal_id;
  from_state = from_state;
  to_state = to_state;
  actor = actor;
  reason = reason;
  at = env.now s.calls;
}

abbrev pub moved : ProposalState → ℕ → Proposal → Proposal
moved next now p = record p { state = next; updated_at = now }

-- transition
unfoldable pub transition :
    Env → Proposal → ProposalState → String → String → Sys → Sys × Result Proposal
transition env p next actor reason s =
    let p' = moved next (env.now s.calls) p in
    if not (can_transition_to p.state next)
    then (s, failure invalid_transition)
    else and_then (update_proposal env p' s) (λ _ t.
      and_then (append_audit env (entry env p.id (some p.state) next actor reason t) t)
        (λ _ u. (u, done p')))

-- joinReasons
abbrev pub join_more : String → List String → String
join_more out [] = out
join_more out (r ∷ rs) = join_more (concat out (concat "; " r)) rs

abbrev pub join_reasons : List String → String
join_reasons [] = "(no reasons recorded)"
join_reasons (r ∷ rs) = join_more r rs

abbrev pub with_evidence : DryRun → Proposal → Proposal
with_evidence d p = record p {
  reject_reasons = d.reasons;
  warnings = d.warnings;
  transcript = d.transcript;
}

-- The end of runDryRunAndAdvance, after a dry run without an error.
unfoldable pub advance : Env → Proposal → DryRun → String → Sys → Sys × Result Proposal
advance env p d actor s =
    let q = with_evidence d p in
    if not d.is_clean
    then transition env q dry_run_failed actor
        (concat "dry run rejected: " (join_reasons d.reasons)) s
    else and_then (transition env q dry_run_ok actor "dry run approved-for-review" s)
        (λ r t. transition env r awaiting_approval actor "clean dry run: awaiting human approval" t)

abbrev pub dry_run_answered :
    Env → Proposal → Script → Option DryRun → String → Sys → Sys × Result Proposal
dry_run_answered env p script none actor s = (s, failure dry_run_failed_to_run)
dry_run_answered env p script (some d) actor s =
    advance env p d actor (record s { log = dry_ran script.body d.is_clean ∷ s.log })

-- runDryRunAndAdvance
unfoldable pub run_dry_run_and_advance :
    Env → Proposal → Script → String → Sys → Sys × Result Proposal
run_dry_run_and_advance env p script actor s =
    dry_run_answered env p script (env.dry_run s.calls script.body) actor s

abbrev pub new_proposal : Env → Script → Sys → Proposal
new_proposal env script s = record {
  id = env.new_id s.calls;
  script_hash = script.sha256;
  state = proposed;
  created_at = env.now s.calls;
  updated_at = env.now s.calls;
  reject_reasons = [];
  warnings = [];
  transcript = [];
  approved_by = "";
  approved_at = none;
  denied_by = "";
  denied_at = none;
  deny_reason = "";
}

-- Propose
unfoldable pub propose : Env → String → String → Sys → Sys × Result Proposal
propose env text actor s =
    let script = new_script env.hash text (env.now s.calls) in
    and_then (upsert_script env script s) (λ _ t.
      let p = new_proposal env script t in
      and_then (insert_proposal env p t) (λ _ u.
        and_then (append_audit env (entry env p.id none proposed actor "proposed" u) u)
          (λ _ v. run_dry_run_and_advance env p script actor v)))

-- The part of Edit for a text that differs from the old script.
unfoldable pub edit_to : Env → Proposal → Script → Script → String → Sys → Sys × Result Proposal
edit_to env p old script actor s =
    let summary = diff_summary env.decimal old.body script.body in
    if str_eq script.sha256 old.sha256
    then (s, failure identical)
    else and_then (upsert_script env script s) (λ _ t.
      and_then
        (transition env (record p { script_hash = script.sha256 }) proposed actor
          (concat "edited: " summary) t)
        (λ q u. run_dry_run_and_advance env q script actor u))

-- Edit
unfoldable pub edit : Env → String → String → String → Sys → Sys × Result Proposal
edit env id text actor s = and_then (get_proposal env id s) (λ p t.
    and_then (get_script env p.script_hash t)
      (λ old u. edit_to env p old (new_script env.hash text (env.now u.calls)) actor u))

-- Approve
unfoldable pub approve : Env → String → String → Sys → Sys × Result Proposal
approve env id actor s = and_then (get_proposal env id s) (λ p t.
    if not (state_eq p.state awaiting_approval)
    then (t, failure dry_run_required)
    else transition env (record p { approved_by = actor; approved_at = some (env.now t.calls) })
        approved actor "approved" t)

-- Deny
unfoldable pub deny : Env → String → String → String → Sys → Sys × Result Proposal
deny env id actor reason s = and_then (get_proposal env id s) (λ p t.
    transition env
      (record p { denied_by = actor; denied_at = some (env.now t.calls); deny_reason = reason })
      denied actor reason t)

-- Expire
unfoldable pub expire : Env → String → String → Sys → Sys × Result Proposal
expire env id actor s =
    and_then (get_proposal env id s) (λ p t. transition env p expired actor "expired" t)

-- What Execute returns besides an error that stopped it: the proposal with the outcome.
pub data Executed : Type 0 where
  mismatched : Proposal → String → Executed
  run_failed : Proposal → String → Executed
  finished : Proposal → ℕ → Bool → Executed

-- The branch of Execute for a precondition that does not hold.
unfoldable pub fall_back : Env → Proposal → String → String → Sys → Sys × Result Executed
fall_back env p why actor s =
    and_then (transition env p running actor "starting execution" s) (λ q t.
      and_then
        (transition env q precondition_failed actor (concat "precondition check failed: " why) t)
        (λ r u.
          and_then
            (transition env r awaiting_approval actor
              "returned to pending: grant survives, run does not" u)
            (λ w v. (v, done (mismatched w why)))))

-- Execute after Executor.Run has returned.
unfoldable pub settle : Env → Proposal → RunOutcome → String → Sys → Sys × Result Executed
settle env p (run_error why) actor s =
    and_then (transition env p failed actor (concat "execution error: " why) s)
      (λ q t. (t, done (run_failed q why)))
settle env p (exited code ok) actor s =
    and_then
      (transition env p (if ok then succeeded else failed) actor
        (concat "exit code " (env.decimal code)) s)
      (λ q t. (t, done (finished q code ok)))

-- Execute once the preconditions hold.
unfoldable pub run_script : Env → Proposal → Script → String → Sys → Sys × Result Executed
run_script env p script actor s =
    and_then (transition env p running actor "starting execution" s) (λ q t.
      settle env q (env.run t.calls script.body) actor (record t { log = ran script.body ∷ t.log }))

abbrev pub checked : Env → Proposal → Script → Option String → String → Sys → Sys × Result Executed
checked env p script (some why) actor s = fall_back env p why actor s
checked env p script none actor s = run_script env p script actor s

-- Execute
unfoldable pub execute : Env → String → String → Sys → Sys × Result Executed
execute env id actor s = and_then (get_proposal env id s) (λ p t.
    and_then (get_script env p.script_hash t)
      (λ script u. checked env p script (env.check u.calls script.body) actor u))
