-- ===== src/Scripts/Lifecycle.antt =====
-- The operations of internal/scripts/registry.go keep the invariant of approval and execution.
use mathlib.Core.Path.{subst}
use server_assistant.Prelude.{
  String, ◌≡◌, ◌≢◌, refl, sym, ◌∙◌, inl, inr, Bool, true, some, List, ◌∷◌, str_eq, eq_iff, arith,
  Bool-cases, Option-cases,
}
use server_assistant.Prelude.Dict.{lookup, lookup-insert}
use server_assistant.Scripts.Domain.{
  Script, new_script, ProposalState, proposed, dry_run_ok, dry_run_failed, awaiting_approval,
  approved, denied, expired, state_eq, Proposal, AuditEntry,
}
use server_assistant.Scripts.Store.{
  Result, failure, done, DryRun, Env, Event, written, dry_ran, Sys, bump, is_there, upsert_script,
  insert_proposal, append_audit,
}
use server_assistant.Scripts.Registry.{
  transition, advance, run_dry_run_and_advance, new_proposal, propose, edit_to, edit, approve, deny,
  expire, with_evidence,
}
use server_assistant.Scripts.Gate.{
  IsBacked, IsBacked-cons, IsBacked-step, IsSafe, Holds, Holds-and_then, clean_seen, rows-cons,
}
use server_assistant.Scripts.Moves.{
  AtHand, Moved, IsSafe-bump, IsSafe-written, transition-Holds, get_proposal-Holds,
  get_script-Holds, there_inserted,
}

-- Nothing is said of the value.
abbrev pub Any : {A : Type 0} → A → Sys → Type 0
Any a s = Unit

-- The proposals and the log are as they were.
record Same {A : Type 0} (s : Sys) (a : A) (t : Sys) : Type 0 where
  proposals : t.proposals ≡ s.proposals
  log : t.log ≡ s.log

pub weaken :
    {A : Type 0} (env : Env) (P : A → Sys → Type 0) (r : Sys × Result A)
    → Holds env P r
    → Holds env Any r
weaken env P (s, failure e) h = h
weaken env P (s, done a) h = (h.0, tt)

-- An edge that is not the one after a clean dry run.
pub step-AtHand :
    (env : Env) (p : Proposal) (next : ProposalState) (actor reason : String) (s : Sys)
    → IsSafe env s
    → AtHand env p s
    → next ≢ dry_run_ok
    → Holds env (Moved env p next) (transition env p next actor reason s)
step-AtHand env p next actor reason s i at other =
    transition-Holds env p next actor reason s i at.there
      (λ edge. IsBacked-step env p next (env.now s.calls) s.log edge other at.backed)

upsert_script-Holds :
    (env : Env) (sc : Script) (s : Sys)
    → IsSafe env s
    → env.hash sc.body ≡ sc.sha256
    → Holds env (Same s) (upsert_script env sc s)
upsert_script-Holds env sc s i h = elim (Bool-cases (env.ok s.calls)) [
  | inr ok ↦ simp ok (IsSafe-bump env s i)
  | inl ok ↦ elim (Bool-cases (is_there (lookup sc.sha256 s.scripts))) [
    | inl e ↦
        simp (ok, e)
          (
            record {
              scripts = i.scripts;
              proposals = i.proposals;
              rows = i.rows;
              named = i.named;
              gated = i.gated;
            },
            record { proposals = refl; log = refl },
          )
    | inr e ↦
        simp (ok, e)
          (
            record {
              scripts = λ k x at. ground (
                arith,
                at,
                i.scripts k x,
                h,
                lookup-insert sc.sha256 k sc s.scripts,
                eq_iff sc.sha256 k,
              );
              proposals = i.proposals;
              rows = i.rows;
              named = i.named;
              gated = i.gated;
            },
            record { proposals = refl; log = refl },
          )
  ]
]

append_audit-Holds :
    (env : Env) (e : AuditEntry) (s : Sys)
    → IsSafe env s
    → Holds env (Same s) (append_audit env e s)
append_audit-Holds env e s i = elim (Bool-cases (env.ok s.calls)) [
  | inr ok ↦ simp ok (IsSafe-bump env s i)
  | inl ok ↦ simp ok (
    record {
      scripts = i.scripts;
      proposals = i.proposals;
      rows = i.rows;
      named = i.named;
      gated = i.gated;
    },
    record { proposals = refl; log = refl },
  )
]

-- A proposal that has only been proposed needs nothing.
proposed-IsBacked : (env : Env) (h : String) (log : List Event) → IsBacked env proposed h log
proposed-IsBacked env h log = record { clean = λ e. cc; released = λ e. cc }

insert_proposal-Holds :
    (env : Env) (p : Proposal) (s : Sys)
    → IsSafe env s
    → p.state ≡ proposed
    → Holds env (λ _. AtHand env p) (insert_proposal env p s)
insert_proposal-Holds env p s i e =
    let b =
      subst (λ st. IsBacked env st p.script_hash (written p ∷ s.log)) (sym e)
        (proposed-IsBacked env p.script_hash (written p ∷ s.log)) in
    elim (Bool-cases (is_there (lookup p.id s.proposals))) [
      | inl taken ↦ simp taken (IsSafe-bump env s i)
      | inr free ↦ elim (Bool-cases (env.ok s.calls)) [
        | inr ok ↦ simp (free, ok) (IsSafe-bump env s i)
        | inl ok ↦
            simp (free, ok)
              (
                IsSafe-written env p (bump s) (IsSafe-bump env s i) b,
                record { there = there_inserted p s.proposals; backed = b },
              )
      ]
    ]

Same-AtHand :
    {A : Type 0} (env : Env) (p : Proposal) (s t : Sys) (a : A)
    → AtHand env p s
    → Same s a t
    → AtHand env p t
Same-AtHand env p s t a at same = record {
  there = rw same.proposals at.there;
  backed = subst (λ l. IsBacked env p.state p.script_hash l) (sym same.log) at.backed;
}

dry_run-IsSafe :
    (env : Env) (body : String) (ok : Bool) (s : Sys)
    → IsSafe env s
    → IsSafe env (record s { log = dry_ran body ok ∷ s.log })
dry_run-IsSafe env body ok s i = record {
  scripts = i.scripts;
  proposals =
      λ k p e. IsBacked-cons env p.state p.script_hash (dry_ran body ok) s.log (i.proposals k p e);
  rows = rows-cons env (dry_ran body ok) s.log s.proposals i.rows;
  named = i.named;
  gated = i.gated;
}

advance-Holds :
    (env : Env) (p : Proposal) (d : DryRun) (actor : String) (s : Sys)
    → IsSafe env s
    → AtHand env p s
    → (d.is_clean ≡ true → clean_seen env p.script_hash s.log ≡ true)
    → p.state ≡ proposed
    → Holds env Any (advance env p d actor s)
unfolding advance
advance-Holds env p d actor s i at cleaned e =
    let q = with_evidence d p in
    let at' : AtHand env q s = record { there = at.there; backed = at.backed } in
    elim (Bool-cases d.is_clean) [
      | inr dirty ↦ simp dirty (
          weaken env (Moved env q dry_run_failed) _
            (step-AtHand env q dry_run_failed actor _ s i at' (λ x. cc)))
      | inl clean ↦ simp clean (
          Holds-and_then env (Moved env q dry_run_ok) Any _ _
            (transition-Holds env q dry_run_ok actor _ s i at.there
              (λ edge. record { clean = λ r. ground (arith, cleaned clean); released = λ r. cc }))
            (λ r t j m.
              weaken env (Moved env r awaiting_approval) _
                (step-AtHand env r awaiting_approval actor _ t j m.at_hand (λ x. cc))))
    ]

-- A dry run of a text that the proposal names by its hash.
run_dry_run_and_advance-Holds :
    (env : Env) (p : Proposal) (script : Script) (actor : String) (s : Sys)
    → IsSafe env s
    → AtHand env p s
    → env.hash script.body ≡ p.script_hash
    → p.state ≡ proposed
    → Holds env Any (run_dry_run_and_advance env p script actor s)
unfolding run_dry_run_and_advance
run_dry_run_and_advance-Holds env p script actor s i at h e =
    elim (Option-cases (env.dry_run s.calls script.body)) [
      | inl none_came ↦ simp none_came i
      | inr (d, came) ↦ simp came (
          advance-Holds env p d actor (record s { log = dry_ran script.body d.is_clean ∷ s.log })
            (dry_run-IsSafe env script.body d.is_clean s i)
            (record {
              there = at.there;
              backed =
                  IsBacked-cons env p.state p.script_hash (dry_ran script.body d.is_clean) s.log
                    at.backed;
            })
            (λ clean. ground (arith, clean, eq_iff (env.hash script.body) p.script_hash, h)) e)
    ]

pub propose-Holds :
    (env : Env) (text actor : String) (s : Sys)
    → IsSafe env s
    → Holds env Any (propose env text actor s)
unfolding propose
propose-Holds env text actor s i =
    let script = new_script env.hash text (env.now s.calls) in
    Holds-and_then env (Same s) Any _ _ (upsert_script-Holds env script s i refl) (λ _ t j same.
      let p = new_proposal env script t in
      Holds-and_then env (λ _. AtHand env p) Any _ _ (insert_proposal-Holds env p t j refl)
        (λ _ u k at.
          Holds-and_then env (Same u) Any _ _ (append_audit-Holds env _ u k) (λ a v l kept.
            run_dry_run_and_advance-Holds env p script actor v l (Same-AtHand env p u v a at kept)
              refl refl)))

edit_to-Holds :
    (env : Env) (p : Proposal) (old script : Script) (actor : String) (s : Sys)
    → IsSafe env s
    → AtHand env p s
    → env.hash script.body ≡ script.sha256
    → Holds env Any (edit_to env p old script actor s)
unfolding edit_to
edit_to-Holds env p old script actor s i at h =
    let p' = record p { script_hash = script.sha256 } in
    elim (Bool-cases (str_eq script.sha256 old.sha256)) [
      | inl e ↦ simp e i
      | inr e ↦ simp e (
          Holds-and_then env (Same s) Any _ _ (upsert_script-Holds env script s i h) (λ a t j same.
            Holds-and_then env (Moved env p' proposed) Any _ _
              (transition-Holds env p' proposed actor _ t j (rw same.proposals at.there)
                (λ edge. proposed-IsBacked env script.sha256 _))
              (λ q u k m.
                run_dry_run_and_advance-Holds env q script actor u k m.at_hand
                  (h ∙ sym m.script_hash) m.state)))
    ]

pub edit-Holds :
    (env : Env) (id text actor : String) (s : Sys)
    → IsSafe env s
    → Holds env Any (edit env id text actor s)
unfolding edit
edit-Holds env id text actor s i =
    Holds-and_then env (AtHand env) Any _ _ (get_proposal-Holds env id s i) (λ p t j at.
      Holds-and_then env (λ sc u. (env.hash sc.body ≡ p.script_hash) × AtHand env p u) Any _ _
        (get_script-Holds env p t j at)
        (λ old u k both. edit_to-Holds env p old _ actor u k both.1 refl))

pub approve-Holds :
    (env : Env) (id actor : String) (s : Sys)
    → IsSafe env s
    → Holds env Any (approve env id actor s)
unfolding approve
approve-Holds env id actor s i =
    Holds-and_then env (AtHand env) Any _ _ (get_proposal-Holds env id s i) (λ p t j at.
      let q = record p { approved_by = actor; approved_at = some (env.now t.calls) } in
      elim (Bool-cases (state_eq p.state awaiting_approval)) [
        | inr other ↦ simp other j
        | inl waits ↦ simp waits (
            weaken env (Moved env q approved) _ (
              step-AtHand env q approved actor "approved" t j
                (record { there = at.there; backed = at.backed }) (λ x. cc)))
      ])

pub deny-Holds :
    (env : Env) (id actor reason : String) (s : Sys)
    → IsSafe env s
    → Holds env Any (deny env id actor reason s)
unfolding deny
deny-Holds env id actor reason s i =
    Holds-and_then env (AtHand env) Any _ _ (get_proposal-Holds env id s i) (λ p t j at.
      let q = record p {
        denied_by = actor;
        denied_at = some (env.now t.calls);
        deny_reason = reason;
      } in
      weaken env (Moved env q denied) _ (
        step-AtHand env q denied actor reason t j (record { there = at.there; backed = at.backed })
          (λ x. cc)))

pub expire-Holds :
    (env : Env) (id actor : String) (s : Sys) → IsSafe env s → Holds env Any (expire env id actor s)
unfolding expire
expire-Holds env id actor s i =
    Holds-and_then env (AtHand env) Any _ _ (get_proposal-Holds env id s i) (λ p t j at.
      weaken env (Moved env p expired) _
        (step-AtHand env p expired actor "expired" t j at (λ x. cc)))
