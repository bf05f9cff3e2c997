-- ===== src/Harness/Reconcile.antt =====
-- What Reconcile of internal/harness/harness.go leaves of interrupted cycles.
use server_assistant.Prelude.{
  ◌≡◌, refl, inl, inr, Bool, true, false, List, [], ◌∷◌, map, Bool-cases, ◌||◌, if◌then◌else◌, All,
}
use server_assistant.Core.Harness.{HarnessCycle, Approval, Outcome}
use server_assistant.Harness.Engine.{
  approval_pending, outcome_pending, reconcile_cycle, reconcile, interrupted_note,
}
use server_assistant.Harness.{append_note}

-- Nothing of the cycle waits any more.
pub record IsSettled (c : HarnessCycle) : Type 0 where
  pub approval : approval_pending c.approval ≡ false
  pub outcome : outcome_pending c.outcome ≡ false

abbrev pub is_open : HarnessCycle → Bool
is_open c = approval_pending c.approval || outcome_pending c.outcome

-- How a cycle is resolved: a missing approval is a deny, a missing outcome is a failure, and the rest
-- is kept but for a note.
abbrev pub resolved : HarnessCycle → HarnessCycle
resolved c = record c {
  approval = if approval_pending c.approval then Approval.expired else c.approval;
  outcome = if approval_pending c.approval then Outcome.nothing else Outcome.action_failed;
  error = append_note c.error interrupted_note;
}

-- One cycle: only an open one is changed and saved.
pub reconcile_cycle_lem :
    (c : HarnessCycle)
    → (reconcile_cycle c ≡ (if is_open c then (resolved c, true) else (c, false)))
      × IsSettled (reconcile_cycle c).0
unfolding reconcile_cycle
reconcile_cycle_lem c = elim (Bool-cases (approval_pending c.approval)) [
  | inl a ↦ simp a (refl, record { approval = refl; outcome = refl })
  | inr a ↦ elim (Bool-cases (outcome_pending c.outcome)) [
    | inl p ↦ simp (a, p) (refl, record { approval = a; outcome = refl })
    | inr p ↦ simp (a, p) (refl, record { approval = a; outcome = p })
  ]
]

settled_unchanged : (c : HarnessCycle) → IsSettled c → reconcile_cycle c ≡ (c, false)
unfolding reconcile_cycle
settled_unchanged c i = simp (i.approval, i.outcome)

-- Once every cycle has been reconciled, a second Reconcile saves nothing and succeeds, whatever the
-- store answers.
pub reconcile_again :
    (ok : HarnessCycle → Bool) (cs : List HarnessCycle)
    → reconcile ok (map (λ c. (reconcile_cycle c).0) cs) ≡ ([], true)
unfolding reconcile
reconcile_again ok [] = refl
reconcile_again ok (c ∷ cs) =
    simp (settled_unchanged (reconcile_cycle c).0 (reconcile_cycle_lem c).1) (reconcile_again ok cs)

-- Every record that Reconcile saves is settled, also when the store fails midway.
pub reconcile-IsSettled :
    (ok : HarnessCycle → Bool) (cs : List HarnessCycle) → All IsSettled (reconcile ok cs).0
unfolding reconcile
reconcile-IsSettled ok [] = tt
reconcile-IsSettled ok (c ∷ cs) =
    let settled = reconcile-IsSettled ok cs in
    let done = (reconcile_cycle_lem c).1 in
    elim (Bool-cases (reconcile_cycle c).1) [
      | inr e ↦ simp e settled
      | inl e ↦ elim (Bool-cases (ok (reconcile_cycle c).0)) [
        | inl k ↦ simp (e, k) (done, settled)
        | inr k ↦ simp (e, k) (done, tt)
      ]
    ]

-- The cycles of the list that wait for an approval or an outcome.
abbrev pub open_cycles : List HarnessCycle → List HarnessCycle
open_cycles [] = []
open_cycles (c ∷ cs) = if is_open c then c ∷ open_cycles cs else open_cycles cs

-- Records are saved in turn, up to the first that the store does not keep, which is tried too.
abbrev pub save_all : (HarnessCycle → Bool) → List HarnessCycle → List HarnessCycle × Bool
save_all ok [] = ([], true)
save_all ok (c ∷ cs) =
    let rest = save_all ok cs in if ok c then (c ∷ rest.0, rest.1) else (c ∷ [], false)

reconcile-save_all :
    (ok : HarnessCycle → Bool) (cs : List HarnessCycle)
    → reconcile ok cs ≡ save_all ok (map resolved (open_cycles cs))
unfolding reconcile
reconcile-save_all ok [] = refl
reconcile-save_all ok (c ∷ cs) =
    let rest = reconcile-save_all ok cs in
    let one = (reconcile_cycle_lem c).0 in
    elim (Bool-cases (is_open c)) [
      | inl e ↦ simp (one, e, rest) refl
      | inr e ↦ simp (one, e, rest) refl
    ]

-- Reconcile, on the cycles that the store has listed: it resolves those that wait for an approval or
-- an outcome, in their order, without an approval as expired and without an action, else as a failed
-- action, with a note and all else kept; it tries to save each of these and no other, ends with an
-- error at the first that the store does not keep, and no record that it tries to save waits for
-- anything.
pub reconcile_lem :
    (ok : HarnessCycle → Bool) (cs : List HarnessCycle)
    → (reconcile ok cs ≡ save_all ok (map resolved (open_cycles cs)))
      × All IsSettled (reconcile ok cs).0
reconcile_lem ok cs = (reconcile-save_all ok cs, reconcile-IsSettled ok cs)
