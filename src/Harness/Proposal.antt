-- ===== src/Harness/Proposal.antt =====
-- What validateProposal of internal/harness/harness.go lets through.
use server_assistant.Prelude.{
  ◌≡◌, ◌⊎◌, inl, inr, refl, some, str_eq, eq_iff, Bool-cases, Option-cases,
}
use server_assistant.Prelude.Dict.{lookup}
use server_assistant.Core.Harness.{HarnessCycle, action_none, action_restart_container}
use server_assistant.Harness.{Options, validate_proposal}

-- The cycle proposes nothing.
pub record ProposesNothing (c : HarnessCycle) : Type 0 where
  pub kind : c.diagnosis.proposed.kind ≡ action_none

-- The cycle proposes a restart, and its target is the one that the configuration gives for the
-- proposed service.
pub record ProposesRestart (o : Options) (c : HarnessCycle) : Type 0 where
  pub kind : c.diagnosis.proposed.kind ≡ action_restart_container
  pub target : lookup c.diagnosis.proposed.subject o.targets ≡ some c.resolved_target

-- Whatever was proposed, after the validation the cycle either proposes nothing, or proposes the
-- one action of the catalog for a configured service with its configured target.
pub validate_proposal_lem :
    (o : Options) (c : HarnessCycle)
    → ProposesNothing (validate_proposal o c) ⊎ ProposesRestart o (validate_proposal o c)
unfolding validate_proposal
validate_proposal_lem o c =
    let p = c.diagnosis.proposed in
    elim (Bool-cases (str_eq p.kind action_restart_container)) [
      | inl r ↦ elim (Bool-cases (str_eq p.kind action_none)) [
        | inl e ↦ simp (r, e) (inl (record { kind = (eq_iff p.kind action_none).0 e }))
        | inr e ↦ elim (Option-cases (lookup p.subject o.targets)) [
          | inl missing ↦ simp (r, e, missing) (inl (record { kind = refl }))
          | inr (t, found) ↦
              simp (r, e, found)
                (inr
                  (record { kind = (eq_iff p.kind action_restart_container).0 r; target = found }))
        ]
      ]
      | inr r ↦ elim (Bool-cases (str_eq p.kind action_none)) [
        | inl e ↦ simp (r, e) (inl (record { kind = (eq_iff p.kind action_none).0 e }))
        | inr e ↦ simp (r, e) (inl (record { kind = refl }))
      ]
    ]
