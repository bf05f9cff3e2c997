-- ===== src/Scripts/Access.antt =====
-- What CheckGrant of internal/scripts/grants.go lets through.
use mathlib.Core.Path.{subst}
use server_assistant.Prelude.{
  ℕ, suc, String, ◌≡◌, ◌<◌, ◌↔◌, ◌⊎◌, none, get_elem?, refl, sym, ap, ◌∙◌, inl, inr, true, false,
  some, List, [], ◌∷◌, eq_iff, arith, Bool-cases, Option-cases, All,
}
use server_assistant.Prelude.Dict.{Dict, lookup}
use server_assistant.Scripts.Domain.{
  ProposalState, proposed, dry_run_ok, dry_run_failed, awaiting_approval, approved, denied, expired,
  running, succeeded, failed, precondition_failed, state_code, state_eq, Proposal, Grant,
  is_expired, is_revoked,
}
use server_assistant.Scripts.Store.{done, Env, Event, Sys, find_approved, is_approved_for}
use server_assistant.Scripts.Grants.{check_grant}
use server_assistant.Scripts.Calls.{Call, run_calls, empty}
use server_assistant.Scripts.Gate.{IsBacked, clean_seen, approval_seen, is_reviewed, is_released}
use server_assistant.Scripts.Execution.{run_calls-IsSafe, empty-IsSafe}

-- The tests of CheckGrant, all passed.
pub record IsPassed (id : String) (now : ℕ) (g : Grant) (s : Sys) : Type 0 where
  pub stored : lookup id s.grants ≡ some g
  pub unrevoked : is_revoked g ≡ false
  pub unexpired : is_expired g now ≡ false
  pub approved_now : find_approved g.script_hash s.proposals ≡ true

abbrev states : List ProposalState
states =
    proposed ∷ dry_run_ok ∷ dry_run_failed ∷ awaiting_approval ∷ approved ∷ denied ∷ expired
    ∷ running ∷ succeeded ∷ failed ∷ precondition_failed ∷ []

states_lem : (s : ProposalState) → get_elem? states (state_code s) ≡ some s
states_lem proposed = refl
states_lem dry_run_ok = refl
states_lem dry_run_failed = refl
states_lem awaiting_approval = refl
states_lem approved = refl
states_lem denied = refl
states_lem expired = refl
states_lem running = refl
states_lem succeeded = refl
states_lem failed = refl
states_lem precondition_failed = refl

pub state_eq_lem : (s t : ProposalState) → state_eq s t ≡ true → s ≡ t
state_eq_lem s t e =
    let codes : state_code s ≡ state_code t = ground (arith, e) in
    let same : some s ≡ some t = sym (states_lem s) ∙ ap (get_elem? states) codes ∙ states_lem t in
    cc

done_inj : (a b : Grant) → done a ≡ done b → a ≡ b
done_inj a b e = cc

IsPassed-found :
    (env : Env) (id : String) (now : ℕ) (g f : Grant) (s : Sys)
    → env.ok s.calls ≡ true
    → lookup id s.grants ≡ some f
    → (check_grant env id now s).1 ≡ done g
    → IsPassed id now g s
unfolding check_grant
IsPassed-found env id now g f s ok e = elim (Bool-cases (is_revoked f)) [
  | inl r ↦ simp (ok, e, r) (λ x. cc)
  | inr r ↦ elim (Bool-cases (is_expired f now)) [
    | inl x ↦ simp (ok, e, r, x) (λ y. cc)
    | inr x ↦ elim (Bool-cases (env.ok (suc s.calls))) [
      | inr k ↦ simp (ok, e, r, x, k) (λ y. cc)
      | inl k ↦ elim (Bool-cases (find_approved f.script_hash s.proposals)) [
        | inr a ↦ simp (ok, e, r, x, k, a) (λ y. cc)
        | inl a ↦
            simp (ok, e, r, x, k, a)
              (λ y.
                subst (λ h. IsPassed id now h s) (done_inj f g y)
                  (record { stored = e; unrevoked = r; unexpired = x; approved_now = a }))
      ]
    ]
  ]
]

check_grant-IsPassed :
    (env : Env) (id : String) (now : ℕ) (g : Grant) (s : Sys)
    → (check_grant env id now s).1 ≡ done g
    → IsPassed id now g s
check_grant-IsPassed env id now g s = elim (Bool-cases (env.ok s.calls)) [
  | inr ok ↦ unfold check_grant in simp ok (λ x. cc)
  | inl ok ↦ elim (Option-cases (lookup id s.grants)) [
    | inl e ↦ unfold check_grant in simp (ok, e) (λ x. cc)
    | inr (f, e) ↦ IsPassed-found env id now g f s ok e
  ]
]

passed_check_grant :
    (env : Env) (id : String) (now : ℕ) (g : Grant) (s : Sys)
    → env.ok s.calls ≡ true
    → env.ok (suc s.calls) ≡ true
    → IsPassed id now g s
    → (check_grant env id now s).1 ≡ done g
unfolding check_grant
passed_check_grant env id now g s ok ok' u =
    simp (ok, ok', u.stored, u.unrevoked, u.unexpired, u.approved_now)

-- Some row names the hash and is approved.
abbrev pub HasApproved : String → Dict Proposal → Type 0
HasApproved h [] = ⊥
HasApproved h (row ∷ d) = ((row.1.script_hash ≡ h) × (row.1.state ≡ approved)) ⊎ HasApproved h d

-- A grant that may be used now: it stands in the table, it was not revoked, its expiry lies ahead, and
-- some row of the proposals names its hash and is approved at this moment.
pub record IsUsable (id : String) (now : ℕ) (g : Grant) (s : Sys) : Type 0 where
  pub stored : lookup id s.grants ≡ some g
  pub unrevoked : g.revoked_at ≡ none
  pub unexpired : (at : ℕ) → g.expires_at ≡ some at → now < at
  pub approved_now : HasApproved g.script_hash s.proposals

HasApproved-found : (h : String) (d : Dict Proposal) → (find_approved h d ≡ true) ↔ HasApproved h d
HasApproved-found h [] = ((λ e. absurd (ground (arith, e))), λ b. absurd b)
HasApproved-found h (row ∷ d) =
    let rest = HasApproved-found h d in
    (
      (λ e. elim (Bool-cases (is_approved_for h row.1)) [
        | inl this ↦ inl (
          ground (arith, this, eq_iff row.1.script_hash h),
          state_eq_lem row.1.state approved (ground (arith, this)),
        )
        | inr other ↦ inr (rest.0 (ground (arith, e, other)))
      ]),
      λ b. elim b [
        | inl (named, at) ↦ ground (arith, named, at, eq_iff row.1.script_hash h)
        | inr later ↦ ground (arith, rest.1 later)
      ],
    )

is_revoked_iff : (g : Grant) → (is_revoked g ≡ false) ↔ (g.revoked_at ≡ none)
is_revoked_iff g = elim (Option-cases g.revoked_at) [
  | inl e ↦ ((λ x. e), λ x. ground (arith, e))
  | inr (t, e) ↦ ((λ x. absurd (ground (arith, e, x))), λ x. absurd (ground (arith, e, x)))
]

is_expired_iff :
    (g : Grant) (now : ℕ)
    → (is_expired g now ≡ false) ↔ ((at : ℕ) → g.expires_at ≡ some at → now < at)
is_expired_iff g now = elim (Option-cases g.expires_at) [
  | inl e ↦ ((λ x at h. absurd (ground (arith, e, h))), λ x. ground (arith, e))
  | inr (t, e) ↦ ((λ x at h. ground (arith, e, h, x)), λ x. ground (arith, e, x t e))
]

-- With a store that answers: CheckGrant returns a grant exactly if the table holds it under that id,
-- it was not revoked, its expiry, if it has one, is later than the time given, and some proposal in
-- the table names exactly its hash and is approved.
pub check_grant_iff :
    (env : Env) (id : String) (now : ℕ) (g : Grant) (s : Sys)
    → env.ok s.calls ≡ true
    → env.ok (suc s.calls) ≡ true
    → ((check_grant env id now s).1 ≡ done g) ↔ IsUsable id now g s
check_grant_iff env id now g s ok again =
    let found = HasApproved-found g.script_hash s.proposals in
    (
      (λ e.
          let u = check_grant-IsPassed env id now g s e in
          record {
            stored = u.stored;
            unrevoked = (is_revoked_iff g).0 u.unrevoked;
            unexpired = (is_expired_iff g now).0 u.unexpired;
            approved_now = found.0 u.approved_now;
          }),
      λ u. passed_check_grant env id now g s ok again (record {
        stored = u.stored;
        unrevoked = (is_revoked_iff g).1 u.unrevoked;
        unexpired = (is_expired_iff g now).1 u.unexpired;
        approved_now = found.1 u.approved_now;
      }),
    )

-- An approved row for a hash is backed by a clean dry run and an approval.
found_backed :
    (env : Env) (h : String) (log : List Event) (d : Dict Proposal)
    → All (λ row. IsBacked env row.1.state row.1.script_hash log) d
    → find_approved h d ≡ true
    → (clean_seen env h log ≡ true) × (approval_seen h log ≡ true)
found_backed env h log [] rows = λ e. absurd cc
found_backed env h log (row ∷ d) (b, rows) = elim (Bool-cases (is_approved_for h row.1)) [
  | inr other ↦ simp other (found_backed env h log d rows)
  | inl this ↦
      let same : row.1.script_hash ≡ h = ground (arith, this, eq_iff row.1.script_hash h) in
      let st : row.1.state ≡ approved = ground (arith, this) in
      λ e. (
        ap (λ x. clean_seen env x log) (sym same) ∙ b.clean (ap is_reviewed st),
        ap (λ x. approval_seen x log) (sym same) ∙ b.released (ap is_released st),
      )
]

-- Whatever calls were made from empty tables, one at a time, and whatever failed on the way: if
-- CheckGrant returns a grant, then the hash that the grant names had a clean dry run and was
-- written as approved.
pub granted_is_clean :
    (env : Env) (cs : List Call) (id : String) (now : ℕ) (g : Grant)
    → (check_grant env id now (run_calls env cs empty)).1 ≡ done g
    → (clean_seen env g.script_hash (run_calls env cs empty).log ≡ true)
      × (approval_seen g.script_hash (run_calls env cs empty).log ≡ true)
granted_is_clean env cs id now g e =
    let s = run_calls env cs empty in
    found_backed env g.script_hash s.log s.proposals
      (run_calls-IsSafe env cs empty (empty-IsSafe env)).rows
      (check_grant-IsPassed env id now g s e).approved_now
