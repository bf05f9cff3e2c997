-- ===== src/Scripts/Frame.antt =====
-- The operations on proposals of internal/scripts/registry.go leave the grants alone.
use server_assistant.Prelude.{
  String, ◌≡◌, refl, inl, inr, some, ◌∷◌, str_eq, arith, Bool-cases, Option-cases,
}
use server_assistant.Scripts.Domain.{
  Script, ProposalState, awaiting_approval, state_eq, Proposal, AuditEntry,
}
use server_assistant.Scripts.Store.{
  Result, failure, done, Env, Sys, and_then, DryRun, RunOutcome, run_error, exited, upsert_script,
  get_script, insert_proposal, get_proposal, append_audit, dry_ran, ran,
}
use server_assistant.Scripts.Registry.{
  transition, advance, run_dry_run_and_advance, propose, edit_to, edit, approve, deny, expire,
  fall_back, settle, run_script, execute,
}

-- The grants are those of `s`.
pub record Keeps {A : Type 0} (s : Sys) (r : Sys × Result A) : Type 0 where
  pub grants : r.0.grants ≡ s.grants

and_then-Keeps :
    {A B : Type 0} (s : Sys) (r : Sys × Result A) (k : A → Sys → Sys × Result B)
    → Keeps s r
    → ((a : A) (t : Sys) → t.grants ≡ s.grants → Keeps s (k a t))
    → Keeps s (and_then r k)
and_then-Keeps s (t, failure e) k h next = record { grants = h.grants }
and_then-Keeps s (t, done a) k h next = next a t h.grants

transition-Keeps :
    (env : Env) (p : Proposal) (next : ProposalState) (actor reason : String) (s t : Sys)
    → t.grants ≡ s.grants
    → Keeps s (transition env p next actor reason t)
unfolding transition
transition-Keeps env p next actor reason s t h = record { grants = ground (arith, h) }

get_proposal-Keeps :
    (env : Env) (id : String) (s t : Sys) → t.grants ≡ s.grants → Keeps s (get_proposal env id t)
get_proposal-Keeps env id s t h = record { grants = ground (arith, h) }

advance-Keeps :
    (env : Env) (p : Proposal) (d : DryRun) (actor : String) (s t : Sys)
    → t.grants ≡ s.grants
    → Keeps s (advance env p d actor t)
unfolding advance
advance-Keeps env p d actor s t h = elim (Bool-cases d.is_clean) [
  | inr e ↦ simp e (transition-Keeps env _ _ actor _ s t h)
  | inl e ↦ simp e (
      and_then-Keeps s _ _ (transition-Keeps env _ _ actor _ s t h)
        (λ r u k. transition-Keeps env r _ actor _ s u k))
]

dry_run-Keeps :
    (env : Env) (p : Proposal) (script : Script) (actor : String) (s t : Sys)
    → t.grants ≡ s.grants
    → Keeps s (run_dry_run_and_advance env p script actor t)
unfolding run_dry_run_and_advance
dry_run-Keeps env p script actor s t h = elim (Option-cases (env.dry_run t.calls script.body)) [
  | inl e ↦ simp e (record { grants = h })
  | inr (d, e) ↦
      simp e (
        advance-Keeps env p d actor s (record t { log = dry_ran script.body d.is_clean ∷ t.log }) h)
]

upsert_script-Keeps :
    (env : Env) (sc : Script) (s t : Sys) → t.grants ≡ s.grants → Keeps s (upsert_script env sc t)
upsert_script-Keeps env sc s t h = record { grants = ground (arith, h) }

append_audit-Keeps :
    (env : Env) (e : AuditEntry) (s t : Sys) → t.grants ≡ s.grants → Keeps s (append_audit env e t)
append_audit-Keeps env e s t h = record { grants = ground (arith, h) }

insert_proposal-Keeps :
    (env : Env) (p : Proposal) (s t : Sys) → t.grants ≡ s.grants → Keeps s (insert_proposal env p t)
insert_proposal-Keeps env p s t h = record { grants = ground (arith, h) }

get_script-Keeps :
    (env : Env) (h : String) (s t : Sys) → t.grants ≡ s.grants → Keeps s (get_script env h t)
get_script-Keeps env k s t h = record { grants = ground (arith, h) }

pub propose-Keeps : (env : Env) (text actor : String) (s : Sys) → Keeps s (propose env text actor s)
unfolding propose
propose-Keeps env text actor s = and_then-Keeps s _ _ (upsert_script-Keeps env _ s s refl) (λ _ t h.
    and_then-Keeps s _ _ (insert_proposal-Keeps env _ s t h) (λ _ u i.
      and_then-Keeps s _ _ (append_audit-Keeps env _ s u i)
        (λ _ v j. dry_run-Keeps env _ _ actor s v j)))

edit_to-Keeps :
    (env : Env) (p : Proposal) (old script : Script) (actor : String) (s t : Sys)
    → t.grants ≡ s.grants
    → Keeps s (edit_to env p old script actor t)
unfolding edit_to
edit_to-Keeps env p old script actor s t h = elim (Bool-cases (str_eq script.sha256 old.sha256)) [
  | inl e ↦ simp e (record { grants = h })
  | inr e ↦ simp e (
      and_then-Keeps s _ _ (upsert_script-Keeps env script s t h) (λ _ u i.
        and_then-Keeps s _ _ (transition-Keeps env _ _ actor _ s u i)
          (λ q v j. dry_run-Keeps env q script actor s v j)))
]

pub edit-Keeps : (env : Env) (id text actor : String) (s : Sys) → Keeps s (edit env id text actor s)
unfolding edit
edit-Keeps env id text actor s = and_then-Keeps s _ _ (get_proposal-Keeps env id s s refl) (λ p t h.
    and_then-Keeps s _ _ (get_script-Keeps env _ s t h)
      (λ old u i. edit_to-Keeps env p old _ actor s u i))

pub approve-Keeps : (env : Env) (id actor : String) (s : Sys) → Keeps s (approve env id actor s)
unfolding approve
approve-Keeps env id actor s = and_then-Keeps s _ _ (get_proposal-Keeps env id s s refl) (λ p t h.
    let q = record p { approved_by = actor; approved_at = some (env.now t.calls) } in
    elim (Bool-cases (state_eq p.state awaiting_approval)) [
      | inr other ↦ simp other (record { grants = h })
      | inl waits ↦ simp waits (transition-Keeps env q _ actor "approved" s t h)
    ])

pub deny-Keeps :
    (env : Env) (id actor reason : String) (s : Sys) → Keeps s (deny env id actor reason s)
unfolding deny
deny-Keeps env id actor reason s =
    and_then-Keeps s _ _ (get_proposal-Keeps env id s s refl)
      (λ p t h. transition-Keeps env _ _ actor reason s t h)

pub expire-Keeps : (env : Env) (id actor : String) (s : Sys) → Keeps s (expire env id actor s)
unfolding expire
expire-Keeps env id actor s =
    and_then-Keeps s _ _ (get_proposal-Keeps env id s s refl)
      (λ p t h. transition-Keeps env p _ actor _ s t h)

fall_back-Keeps :
    (env : Env) (p : Proposal) (why actor : String) (s t : Sys)
    → t.grants ≡ s.grants
    → Keeps s (fall_back env p why actor t)
unfolding fall_back
fall_back-Keeps env p why actor s t h =
    and_then-Keeps s _ _ (transition-Keeps env p _ actor _ s t h) (λ q u i.
      and_then-Keeps s _ _ (transition-Keeps env q _ actor _ s u i) (λ r v j.
        and_then-Keeps s _ _ (transition-Keeps env r _ actor _ s v j)
          (λ w x k. record { grants = k })))

settle-Keeps :
    (env : Env) (p : Proposal) (out : RunOutcome) (actor : String) (s t : Sys)
    → t.grants ≡ s.grants
    → Keeps s (settle env p out actor t)
unfolding settle
settle-Keeps env p (run_error why) actor s t h =
    and_then-Keeps s _ _ (transition-Keeps env p _ actor _ s t h) (λ w x k. record { grants = k })
settle-Keeps env p (exited code ok) actor s t h =
    and_then-Keeps s _ _ (transition-Keeps env p _ actor _ s t h) (λ w x k. record { grants = k })

run_script-Keeps :
    (env : Env) (p : Proposal) (script : Script) (actor : String) (s t : Sys)
    → t.grants ≡ s.grants
    → Keeps s (run_script env p script actor t)
unfolding run_script
run_script-Keeps env p script actor s t h =
    and_then-Keeps s _ _ (transition-Keeps env p _ actor _ s t h)
      (λ q u i. settle-Keeps env q _ actor s (record u { log = ran script.body ∷ u.log }) i)

pub execute-Keeps : (env : Env) (id actor : String) (s : Sys) → Keeps s (execute env id actor s)
unfolding execute
execute-Keeps env id actor s = and_then-Keeps s _ _ (get_proposal-Keeps env id s s refl) (λ p t h.
    and_then-Keeps s _ _ (get_script-Keeps env _ s t h) (λ script u i.
      elim (Option-cases (env.check u.calls script.body)) [
        | inl holds ↦ simp holds (run_script-Keeps env p script actor s u i)
        | inr (why, fails) ↦ simp fails (fall_back-Keeps env p why actor s u i)
      ]))
