-- ===== src/Harness/Engine.antt =====
-- The handlers of internal/harness/harness.go that other goroutines call: ObserveCommit from the
-- poll loops, Approve, Deny, Halt and Rearm from the dashboard, Reconcile at startup.
use server_assistant.Prelude.{
  ℕ, String, Bool, true, false, not, ◌&&◌, ◌||◌, Option, none, some, List, [], ◌∷◌, str_eq, ltb,
  if◌then◌else◌,
}
use server_assistant.Prelude.Dict.{lookup, insert}
use server_assistant.Core.Domain.{up, down, status_eq, CommittedStatus}
use server_assistant.Core.Harness.{HarnessMode, Approval, Outcome, HarnessCycle, zero_cycle}
use server_assistant.Harness.{Options, ApprovalMsg, CycleState, Harness, append_note}

abbrev pub is_off : HarnessMode → Bool
is_off HarnessMode.off = true
is_off _ = false

abbrev pub is_some {ℓ} : {A : Type ℓ} → Option A → Bool
is_some none = false
is_some (some a) = true

-- h.lastUp[cs.Service] = cs.ChangedAt, for a committed UP.
abbrev pub note_up : CommittedStatus → Harness → Harness
note_up cs h = record h {
  last_up = if status_eq cs.status up then insert cs.service cs.changed_at h.last_up else h.last_up;
}

-- The outcome watch: a signal to the cycle that waits for this subject.
abbrev pub signal_state : CommittedStatus → CycleState → CycleState
signal_state cs a =
    if str_eq a.subject cs.service && a.awaiting_outcome && status_eq cs.status up
    then record a { outcome = true }
    else a

abbrev pub signal_active : CommittedStatus → Option CycleState → Option CycleState
signal_active cs none = none
signal_active cs (some a) = some (signal_state cs a)

abbrev pub in_cooldown : ℕ → Option ℕ → Bool
in_cooldown now none = false
in_cooldown now (some until) = ltb now until

-- The conditions under which a commit is ignored, in their order.
unfoldable pub rejects : Options → ℕ → CommittedStatus → Harness → Bool
rejects o now cs h =
    is_off o.mode
    || (h.halted
        || (not (status_eq cs.status down)
            || (not (is_some (lookup cs.service o.targets))
                || (is_some h.active || in_cooldown now (lookup cs.service h.cooldown)))))

abbrev pub new_state : String → CommittedStatus → CycleState
new_state id cs = record {
  id = id;
  subject = cs.service;
  cycle = zero_cycle;
  decision = none;
  outcome = false;
  awaiting_approval = false;
  awaiting_outcome = false;
}

-- The two watches at the head of ObserveCommit.
abbrev pub watch : CommittedStatus → Harness → Harness
watch cs h = let h' = note_up cs h in record h' { active = signal_active cs h'.active }

-- ObserveCommit: the new state, and whether a cycle with this fresh id starts.
unfoldable pub observe_commit : Options → ℕ → String → CommittedStatus → Harness → Harness × Bool
observe_commit o now id cs h =
    let h' = watch cs h in
    if rejects o now cs h'
    then (h', false)
    else (record h' { active = some (new_state id cs) }, true)

-- What decide returns: nil, or one of its errors.
pub data Decided : Type 0 where
  accepted unknown_cycle not_awaiting not_persisted : Decided

-- The cycle that decide saves.
abbrev pub decided_cycle : Approval → String → ℕ → HarnessCycle → HarnessCycle
decided_cycle decision who now c = record c {
  approval = decision;
  approved_by = who;
  approved_at = some now;
}

-- decide for the active cycle: the state, the record that it saved if it got that far, the result.
abbrev pub decide_active :
    ℕ
    → String
    → String
    → Approval
    → Bool
    → CycleState
    → Harness
    → Harness × Option HarnessCycle × Decided
decide_active now id who decision save_ok st h =
    let c = decided_cycle decision who now st.cycle in
    let msg : ApprovalMsg = record { decision = decision; who = who; at = some now } in
    if not (str_eq st.id id)
    then (h, none, unknown_cycle)
    else if not st.awaiting_approval
    then (h, none, not_awaiting)
    else if not save_ok
    then (h, some c, not_persisted)
    else (
      record h {
        active = some (record st {
          awaiting_approval = false;
          cycle = c;
          decision = if is_some st.decision then st.decision else some msg;
        });
      },
      some c,
      accepted,
    )

abbrev pub decide_in :
    ℕ
    → String
    → String
    → Approval
    → Bool
    → Option CycleState
    → Harness
    → Harness × Option HarnessCycle × Decided
decide_in now id who decision save_ok none h = (h, none, unknown_cycle)
decide_in now id who decision save_ok (some st) h = decide_active now id who decision save_ok st h

-- decide: Approve and Deny are this with their decision; `save_ok` is what the store answers.
unfoldable pub decide :
    ℕ → String → String → Approval → Bool → Harness → Harness × Option HarnessCycle × Decided
decide now id who decision save_ok h = decide_in now id who decision save_ok h.active h

-- Halt
abbrev pub halt : String → Harness → Harness
halt reason h = record h { halted = true; halt_reason = reason }

-- Rearm
abbrev pub rearm : Harness → Harness
rearm h = record h { halted = false; halt_reason = "" }

abbrev pub approval_pending : Approval → Bool
approval_pending Approval.pending = true
approval_pending _ = false

abbrev pub outcome_pending : Outcome → Bool
outcome_pending Outcome.pending = true
outcome_pending _ = false

abbrev pub interrupted_note : String
interrupted_note = "interrupted by a process restart; resolved by startup reconciliation"

-- The body of the loop of Reconcile: the cycle, and whether it changed and is saved.
unfoldable pub reconcile_cycle : HarnessCycle → HarnessCycle × Bool
reconcile_cycle c =
    let c1 =
      if approval_pending c.approval
      then record c { approval = Approval.expired; outcome = Outcome.nothing }
      else c in
    let c2 =
      if outcome_pending c1.outcome then record c1 { outcome = Outcome.action_failed } else c1 in
    if approval_pending c.approval || outcome_pending c1.outcome
    then (record c2 { error = append_note c2.error interrupted_note }, true)
    else (c, false)

-- The loop of Reconcile over the listed cycles: the records that it saves, in their order, and
-- whether it ends without an error; `ok` is what the store answers to a save.
unfoldable pub reconcile : (HarnessCycle → Bool) → List HarnessCycle → List HarnessCycle × Bool
reconcile ok [] = ([], true)
reconcile ok (c ∷ cs) =
    let (c', changed) = reconcile_cycle c in
    let rest = reconcile ok cs in
    if changed then (if ok c' then (c' ∷ rest.0, rest.1) else (c' ∷ [], false)) else rest
