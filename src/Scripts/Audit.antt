-- ===== src/Scripts/Audit.antt =====
-- What Registry.transition of internal/scripts/registry.go leaves in the row of a proposal and in the
-- audit log.
use mathlib.Core.Path.{subst}
use server_assistant.Prelude.{
  suc, String, ◌≡◌, any, refl, sym, ap, ◌∙◌, inl, inr, true, false, some, List, [], ◌∷◌, eq_iff,
  arith, Bool-cases, All,
}
use server_assistant.Prelude.Dict.{lookup, lookup-insert}
use server_assistant.Scripts.Domain.{
  ProposalState, proposed, dry_run_ok, dry_run_failed, awaiting_approval, approved, denied, expired,
  running, succeeded, failed, precondition_failed, state_eq, transitions, can_transition_to,
  Proposal,
}
use server_assistant.Scripts.Store.{failure, done, store_failed, Env, Sys, is_there}
use server_assistant.Scripts.Registry.{transition, moved}
use server_assistant.Scripts.Access.{state_eq_lem}

-- The lifecycle of a proposal, edge by edge: a dry run, the decision of a human, a run; an edit takes
-- a proposal back to its start, and a failed precondition back to the decision.
pub data IsEdge : ProposalState → ProposalState → Type 0 where
  dry_run_passes : IsEdge proposed dry_run_ok
  dry_run_fails : IsEdge proposed dry_run_failed
  queues : IsEdge dry_run_ok awaiting_approval
  is_approved : IsEdge awaiting_approval approved
  is_denied : IsEdge awaiting_approval denied
  expires : IsEdge awaiting_approval expired
  starts : IsEdge approved running
  run_succeeds : IsEdge running succeeded
  run_fails : IsEdge running failed
  precondition_fails : IsEdge running precondition_failed
  asks_again : IsEdge precondition_failed awaiting_approval
  edits_failed : IsEdge dry_run_failed proposed
  edits_waiting : IsEdge awaiting_approval proposed
  edits_approved : IsEdge approved proposed

transitions-IsEdge : (s : ProposalState) → All (IsEdge s) (transitions s)
transitions-IsEdge proposed = (dry_run_passes, (dry_run_fails, tt))
transitions-IsEdge dry_run_ok = (queues, tt)
transitions-IsEdge dry_run_failed = (edits_failed, tt)
transitions-IsEdge awaiting_approval = (is_approved, (is_denied, (expires, (edits_waiting, tt))))
transitions-IsEdge approved = (starts, (edits_approved, tt))
transitions-IsEdge denied = tt
transitions-IsEdge expired = tt
transitions-IsEdge running = (run_succeeds, (run_fails, (precondition_fails, tt)))
transitions-IsEdge succeeded = tt
transitions-IsEdge precondition_failed = (asks_again, tt)
transitions-IsEdge failed = tt

any-IsEdge :
    (s next : ProposalState) (ns : List ProposalState)
    → All (IsEdge s) ns
    → any (λ n. state_eq n next) ns ≡ true
    → IsEdge s next
any-IsEdge s next [] all e = absurd (ground (arith, e))
any-IsEdge s next (n ∷ ns) all e = elim (Bool-cases (state_eq n next)) [
  | inl same ↦ subst (IsEdge s) (state_eq_lem n next same) all.0
  | inr other ↦ any-IsEdge s next ns all.1 (ground (arith, e, other))
]

can_transition_to-IsEdge :
    (s next : ProposalState) → can_transition_to s next ≡ true → IsEdge s next
can_transition_to-IsEdge s next e = any-IsEdge s next (transitions s) (transitions-IsEdge s) e

-- What a transition that succeeds leaves: an edge of the state machine, the row with the new state,
-- and one entry of the audit log that names both states.
pub record IsAudited (env : Env) (p : Proposal) (next : ProposalState) (actor reason : String)
    (s : Sys) (q : Proposal) (t : Sys) : Type 0 where
  pub edge : IsEdge p.state next
  pub value : q ≡ record p { state = next; updated_at = env.now s.calls }
  pub row : lookup p.id t.proposals ≡ some q
  pub audit :
      t.audit
      ≡ record {
        id = env.new_id (suc s.calls);
        proposal_id = p.id;
        from_state = some p.state;
        to_state = next;
        actor = actor;
        reason = reason;
        at = env.now (suc s.calls);
      }
        ∷ s.audit

proposal_inj : (a b : Proposal) → done a ≡ done b → a ≡ b
proposal_inj a b e = cc

-- If a transition of a proposal that has a row succeeds, then it is one of the fourteen edges of the
-- lifecycle, the row holds the proposal with the new state and the time of the update and with all
-- other fields kept, and exactly one entry, with both states, the actor and the reason, was added to
-- the audit log.
pub transition-IsAudited :
    (env : Env) (p : Proposal) (next : ProposalState) (actor reason : String) (s : Sys)
    (q : Proposal)
    → is_there (lookup p.id s.proposals) ≡ true
    → (transition env p next actor reason s).1 ≡ done q
    → IsAudited env p next actor reason s q (transition env p next actor reason s).0
unfolding transition
transition-IsAudited env p next actor reason s q there =
    let p' = moved next (env.now s.calls) p in
    elim (Bool-cases (can_transition_to p.state next)) [
      | inr edge ↦ simp edge (λ x. cc)
      | inl edge ↦ elim (Bool-cases (env.ok s.calls)) [
        | inr ok ↦ simp (edge, ok) (λ x. cc)
        | inl ok ↦ elim (Bool-cases (env.ok (suc s.calls))) [
          | inr ok' ↦ simp (edge, ok, there, ok') (λ x. cc)
          | inl ok' ↦
              simp (edge, ok, there, ok')
                (λ x. record {
                  edge = can_transition_to-IsEdge p.state next edge;
                  value = sym (proposal_inj p' q x);
                  row =
                      ground (arith, lookup-insert p.id p.id p' s.proposals, eq_iff p.id p.id)
                      ∙ ap some (proposal_inj p' q x);
                  audit = refl;
                })
        ]
      ]
    ]

-- If the store keeps the new state and then fails on the entry of the audit log, the transition
-- returns an error, and yet the row holds the new state and the audit log is unchanged.
pub transition_unaudited :
    (env : Env) (p : Proposal) (next : ProposalState) (actor reason : String) (s : Sys)
    → is_there (lookup p.id s.proposals) ≡ true
    → can_transition_to p.state next ≡ true
    → env.ok s.calls ≡ true
    → env.ok (suc s.calls) ≡ false
    → let (t, result) = transition env p next actor reason s in
      (result ≡ failure store_failed)
      × (lookup p.id t.proposals ≡ some (moved next (env.now s.calls) p))
      × (t.audit ≡ s.audit)
unfolding transition
transition_unaudited env p next actor reason s there edge ok broken =
    let p' = moved next (env.now s.calls) p in
    simp (edge, ok, there, broken)
      (refl, ground (arith, lookup-insert p.id p.id p' s.proposals, eq_iff p.id p.id), refl)
