-- ===== src/Scripts/Execution.antt =====
-- Real runs of scripts in internal/scripts/registry.go, and what every sequence of calls keeps.
use server_assistant.Prelude.{
  ℕ, String, ◌≡◌, sym, ap, ◌∙◌, inl, inr, true, false, some, List, [], ◌∷◌, arith, Option-cases,
}
use server_assistant.Prelude.Dict.{lookup}
use mathlib.Core.Path.{subst}
use server_assistant.Scripts.Domain.{
  GrantScope, Script, awaiting_approval, running, succeeded, failed, precondition_failed, Proposal,
}
use server_assistant.Scripts.Store.{
  Result, failure, done, RunOutcome, run_error, exited, Env, ran, Sys,
}
use server_assistant.Scripts.Registry.{fall_back, settle, run_script, execute}
use server_assistant.Scripts.Grants.{GrantTtls, issue_grant, touch_grant, revoke_grant}
use server_assistant.Scripts.Calls.{
  Call, propose_call, edit_call, approve_call, deny_call, expire_call, execute_call, issue_call,
  touch_call, revoke_call, perform, run_calls, empty,
}
use server_assistant.Scripts.Gate.{
  IsBacked, IsBacked-cons, IsGated, IsSafe, Holds, Holds-and_then, clean_seen, is_reviewed,
  is_released, approval_seen, rows-cons,
}
use server_assistant.Scripts.Moves.{AtHand, Moved, get_proposal-Holds, get_script-Holds}
use server_assistant.Scripts.Lifecycle.{
  Any, step-AtHand, propose-Holds, edit-Holds, approve-Holds, deny-Holds, expire-Holds,
}

fall_back-Holds :
    (env : Env) (p : Proposal) (why actor : String) (s : Sys)
    → IsSafe env s
    → AtHand env p s
    → Holds env Any (fall_back env p why actor s)
unfolding fall_back
fall_back-Holds env p why actor s i at =
    Holds-and_then env (Moved env p running) Any _ _
      (step-AtHand env p running actor _ s i at (λ x. cc))
      (λ q t j m.
        Holds-and_then env (Moved env q precondition_failed) Any _ _
          (step-AtHand env q precondition_failed actor _ t j m.at_hand (λ x. cc))
          (λ r u k m'.
            Holds-and_then env (Moved env r awaiting_approval) Any _ _
              (step-AtHand env r awaiting_approval actor _ u k m'.at_hand (λ x. cc))
              (λ w v l m''. (l, tt))))

settle-Holds :
    (env : Env) (p : Proposal) (out : RunOutcome) (actor : String) (s : Sys)
    → IsSafe env s
    → AtHand env p s
    → Holds env Any (settle env p out actor s)
unfolding settle
settle-Holds env p (run_error why) actor s i at =
    Holds-and_then env (Moved env p failed) Any _ _
      (step-AtHand env p failed actor _ s i at (λ x. cc)) (λ q t j m. (j, tt))
settle-Holds env p (exited code true) actor s i at =
    Holds-and_then env (Moved env p succeeded) Any _ _
      (step-AtHand env p succeeded actor _ s i at (λ x. cc)) (λ q t j m. (j, tt))
settle-Holds env p (exited code false) actor s i at =
    Holds-and_then env (Moved env p failed) Any _ _
      (step-AtHand env p failed actor _ s i at (λ x. cc)) (λ q t j m. (j, tt))

-- The run of a script whose hash a running proposal names.
ran-IsSafe :
    (env : Env) (p : Proposal) (body : String) (s : Sys)
    → IsSafe env s
    → AtHand env p s
    → p.state ≡ running
    → env.hash body ≡ p.script_hash
    → IsSafe env (record s { log = ran body ∷ s.log })
ran-IsSafe env p body s i at e h = record {
  scripts = i.scripts;
  proposals =
      λ k q found. IsBacked-cons env q.state q.script_hash (ran body) s.log (i.proposals k q found);
  rows = rows-cons env (ran body) s.log s.proposals i.rows;
  named = i.named;
  gated = (
    ap (λ x. clean_seen env x s.log) h ∙ at.backed.clean (ap is_reviewed e),
    ap (λ x. approval_seen x s.log) h ∙ at.backed.released (ap is_released e),
    i.gated,
  );
}

run_script-Holds :
    (env : Env) (p : Proposal) (script : Script) (actor : String) (s : Sys)
    → IsSafe env s
    → AtHand env p s
    → env.hash script.body ≡ p.script_hash
    → Holds env Any (run_script env p script actor s)
unfolding run_script
run_script-Holds env p script actor s i at h =
    Holds-and_then env (Moved env p running) Any _ _
      (step-AtHand env p running actor _ s i at (λ x. cc))
      (λ q t j m.
        settle-Holds env q _ actor (record t { log = ran script.body ∷ t.log })
          (ran-IsSafe env q script.body t j m.at_hand m.state (h ∙ sym m.script_hash))
          (record {
            there = m.at_hand.there;
            backed =
                IsBacked-cons env q.state q.script_hash (ran script.body) t.log m.at_hand.backed;
          }))

execute-Holds :
    (env : Env) (id actor : String) (s : Sys)
    → IsSafe env s
    → Holds env Any (execute env id actor s)
unfolding execute
execute-Holds env id actor s i =
    Holds-and_then env (AtHand env) Any _ _ (get_proposal-Holds env id s i) (λ p t j at.
      Holds-and_then env (λ sc u. (env.hash sc.body ≡ p.script_hash) × AtHand env p u) Any _ _
        (get_script-Holds env p t j at)
        (λ script u k both. elim (Option-cases (env.check u.calls script.body)) [
          | inl holds ↦ simp holds (run_script-Holds env p script actor u k both.1 both.0)
          | inr (why, fails) ↦ simp fails (fall_back-Holds env p why actor u k both.1)
        ]))

-- Only the grants and the number of calls differ.
record SameButGrants (s t : Sys) : Type 0 where
  scripts : t.scripts ≡ s.scripts
  proposals : t.proposals ≡ s.proposals
  log : t.log ≡ s.log

SameButGrants-IsSafe : (env : Env) (s t : Sys) → SameButGrants s t → IsSafe env s → IsSafe env t
SameButGrants-IsSafe env s t same i = record {
  scripts = λ h sc e. i.scripts h sc (ap (lookup h) (sym same.scripts) ∙ e);
  proposals = λ k p e.
      subst (λ l. IsBacked env p.state p.script_hash l) (sym same.log)
        (i.proposals k p (ap (lookup k) (sym same.proposals) ∙ e));
  rows = rw (same.proposals, same.log) i.rows;
  named = λ k p e. i.named k p (ap (lookup k) (sym same.proposals) ∙ e);
  gated = rw same.log i.gated;
}

issue_keeps :
    (env : Env) (h : String) (scope : GrantScope) (key session_id : String) (ttls : GrantTtls)
    (s : Sys)
    → SameButGrants s (issue_grant env h scope key session_id ttls s).0
unfolding issue_grant
issue_keeps env h scope key session_id ttls s = record {
  scripts = ground arith;
  proposals = ground arith;
  log = ground arith;
}

touch_keeps :
    (env : Env) (id : String) (at : ℕ) (s : Sys) → SameButGrants s (touch_grant env id at s).0
unfolding touch_grant
touch_keeps env id at s = record {
  scripts = ground arith;
  proposals = ground arith;
  log = ground arith;
}

revoke_keeps : (env : Env) (id : String) (s : Sys) → SameButGrants s (revoke_grant env id s).0
unfolding revoke_grant
revoke_keeps env id s = record {
  scripts = ground arith;
  proposals = ground arith;
  log = ground arith;
}

IsSafe-of : {A : Type 0} (env : Env) (r : Sys × Result A) → Holds env Any r → IsSafe env r.0
IsSafe-of env (s, failure e) h = h
IsSafe-of env (s, done a) h = h.0

perform-IsSafe : (env : Env) (c : Call) (s : Sys) → IsSafe env s → IsSafe env (perform env c s)
unfolding perform
perform-IsSafe env (propose_call text actor) s i =
    IsSafe-of env _ (propose-Holds env text actor s i)
perform-IsSafe env (edit_call id text actor) s i =
    IsSafe-of env _ (edit-Holds env id text actor s i)
perform-IsSafe env (approve_call id actor) s i = IsSafe-of env _ (approve-Holds env id actor s i)
perform-IsSafe env (deny_call id actor reason) s i =
    IsSafe-of env _ (deny-Holds env id actor reason s i)
perform-IsSafe env (expire_call id actor) s i = IsSafe-of env _ (expire-Holds env id actor s i)
perform-IsSafe env (execute_call id actor) s i = IsSafe-of env _ (execute-Holds env id actor s i)
perform-IsSafe env (issue_call h scope key session_id ttls) s i =
    SameButGrants-IsSafe env s _ (issue_keeps env h scope key session_id ttls s) i
perform-IsSafe env (touch_call id at) s i = SameButGrants-IsSafe env s _ (touch_keeps env id at s) i
perform-IsSafe env (revoke_call id) s i = SameButGrants-IsSafe env s _ (revoke_keeps env id s) i

pub run_calls-IsSafe :
    (env : Env) (cs : List Call) (s : Sys) → IsSafe env s → IsSafe env (run_calls env cs s)
unfolding run_calls
run_calls-IsSafe env [] s i = i
run_calls-IsSafe env (c ∷ cs) s i =
    run_calls-IsSafe env cs (perform env c s) (perform-IsSafe env c s i)

pub empty-IsSafe : (env : Env) → IsSafe env empty
unfolding lookup
empty-IsSafe env = record {
  scripts = λ h sc e. cc;
  proposals = λ k p e. cc;
  rows = tt;
  named = λ k p e. cc;
  gated = tt;
}

-- Whatever calls are made of the registry from empty tables, one at a time, and whatever the store,
-- the sandbox and the precondition checker answer: each real run is of a script whose hash has had a
-- clean dry run and has been written as approved before it; and each proposal is written in a state
-- that needs a review only after a clean dry run under its hash.
pub run_needs_approval : (env : Env) (cs : List Call) → IsGated env (run_calls env cs empty).log
run_needs_approval env cs = (run_calls-IsSafe env cs empty (empty-IsSafe env)).gated

-- Whatever calls were made from empty tables, one at a time, and whatever failed on the way: a
-- proposal in any state but proposed and dry_run_failed names a hash that had a clean dry run.
pub approved_is_clean :
    (env : Env) (cs : List Call) (id : String) (p : Proposal)
    → lookup id (run_calls env cs empty).proposals ≡ some p
    → is_reviewed p.state ≡ true
    → clean_seen env p.script_hash (run_calls env cs empty).log ≡ true
approved_is_clean env cs id p e reviewed =
    ((run_calls-IsSafe env cs empty (empty-IsSafe env)).proposals id p e).clean reviewed
