-- ===== src/Harness/Run.antt =====
-- runCycle of internal/harness/harness.go as a goroutine that the other handlers interleave with:
-- its place in the code, and one function for the code from each place to the next. A place ends
-- where the goroutine waits, takes the lock or releases it, so every interleaving of the
-- goroutine with the handlers is a list of moves.
use server_assistant.Prelude.{
  ℕ, ◌+◌, String, Bool, true, false, not, ◌||◌, Option, none, some, List, [], ◌∷◌, str_eq, leb,
  if◌then◌else◌,
}
use server_assistant.Prelude.Dict.{lookup, insert, erase}
use server_assistant.Core.Domain.{CommittedStatus}
use server_assistant.Core.Harness.{HarnessMode, action_none, Approval, Outcome, HarnessCycle}
use server_assistant.Harness.{
  Options, ApprovalMsg, CycleState, Harness, new_harness, new_cycle, ToolAnswer, diagnosis_sweep,
  Reasoned, diagnose, validate_proposal, dispatch,
}
use server_assistant.Harness.Engine.{observe_commit, decide, halt, rearm, outcome_pending}

-- Where the goroutine is, with its local `cycle`.
pub data Place : Type 0 where
  idle : Place
  started : String → CommittedStatus → Place
  proposing : HarnessCycle → Place
  announcing : HarnessCycle → Place
  waiting : HarnessCycle → Place
  expiring : HarnessCycle → Place
  decided : HarnessCycle → ApprovalMsg → Place
  dispatched : HarnessCycle → Place
  settling : HarnessCycle → Bool → Place
  watching : HarnessCycle → Place
  closing : HarnessCycle → Place
  cooling : HarnessCycle → Place
  leaving : Place

-- A call to the store or the actuator, what the engine was told, and the start and the end of a
-- goroutine.
pub data Event : Type 0 where
  observed : CommittedStatus → Event
  began : String → Event
  stored : HarnessCycle → Bool → Event
  restarted : String → Event
  ended : Event

-- The whole: the engine, its goroutine, and what happened, the latest first.
pub record Sys : Type 0 where
  pub harness : Harness
  pub place : Place
  pub log : List Event

-- What the goroutine meets on its way to the next place: the clock, whether the stores succeed, the
-- tools, the Reasoner, the actuator's error, and whether a timer fires first.
pub record World : Type 0 where
  pub now : ℕ
  pub ok : Bool
  pub ok_again : Bool
  pub expired : ℕ → Bool
  pub answer : ℕ → ToolAnswer
  pub reasoned : Reasoned
  pub restart_error : Option String
  pub timer : Bool

abbrev pub is_shadow : HarnessMode → Bool
is_shadow HarnessMode.shadow = true
is_shadow _ = false

abbrev pub is_approved : Approval → Bool
is_approved Approval.approved = true
is_approved _ = false

abbrev pub update_active : (CycleState → CycleState) → Harness → Option CycleState → Harness
update_active f h none = h
update_active f h (some st) = record h { active = some (f st) }

-- The read-only part: Diagnosis and validation of what it proposes.
abbrev pub investigate : Options → World → HarnessCycle → HarnessCycle
investigate o w c =
    validate_proposal o (
      diagnose w.reasoned
        (record c { tool_calls = diagnosis_sweep o w.expired w.answer c.subject }))

-- From the start to the proposal, or to the end of a cycle that proposes nothing or may not.
unfoldable pub from_started : Options → World → String → CommittedStatus → Sys → Sys
from_started o w id cs s =
    let c0 = new_cycle o id cs w.now in
    let c1 = record c0 { tool_calls = diagnosis_sweep o w.expired w.answer c0.subject } in
    let c2 = investigate o w c0 in
    let log = stored c1 w.ok_again ∷ stored c0 w.ok ∷ s.log in
    let c3 = record c2 { approval = Approval.not_requested; outcome = Outcome.nothing } in
    if is_shadow o.mode || str_eq c2.diagnosis.proposed.kind action_none
    then record s { place = leaving; log = stored c3 w.ok ∷ log }
    else record s { place = proposing c2; log = log }

-- Under the lock: the cycle awaits an approval, and decide sees it.
unfoldable pub from_proposing : HarnessCycle → Sys → Sys
from_proposing c s =
    let c' = record c { approval = Approval.pending } in
    record s {
      harness =
          update_active (λ st. record st { awaiting_approval = true; cycle = c' }) s.harness
            s.harness.active;
      place = announcing c';
    }

unfoldable pub from_announcing : World → HarnessCycle → Sys → Sys
from_announcing w c s = record s { place = waiting c; log = stored c w.ok ∷ s.log }

abbrev pub decision_of : Option CycleState → Option ApprovalMsg
decision_of none = none
decision_of (some st) = st.decision

abbrev pub receive : HarnessCycle → Option ApprovalMsg → Sys → Sys
receive c none s = s
receive c (some msg) s = record s {
  harness = update_active (λ st. record st { decision = none }) s.harness s.harness.active;
  place = decided c msg;
}

-- The `select` on the decision and its timer; without either it waits.
unfoldable pub from_waiting : World → HarnessCycle → Sys → Sys
from_waiting w c s =
    if w.timer then record s { place = expiring c } else receive c (decision_of s.harness.active) s

-- Under the lock after the timer: default-deny.
unfoldable pub from_expiring : HarnessCycle → Sys → Sys
from_expiring c s = record s {
  harness =
      update_active (λ st. record st { awaiting_approval = false }) s.harness s.harness.active;
  place = decided c (record { decision = Approval.expired; who = ""; at = none });
}

abbrev pub or_else : Option ℕ → Option ℕ → Option ℕ
or_else none old = old
or_else (some t) old = some t

-- cycle.Approval, ApprovedBy and ApprovedAt from the decision.
abbrev pub apply_decision : ApprovalMsg → HarnessCycle → HarnessCycle
apply_decision msg c = record c {
  approval = msg.decision;
  approved_by = msg.who;
  approved_at = or_else msg.at c.approved_at;
}

-- Without an approval the cycle ends; with one the actuator is called, once.
unfoldable pub from_decided : World → HarnessCycle → ApprovalMsg → Sys → Sys
from_decided w c msg s =
    let c1 = apply_decision msg c in
    let c2 = dispatch w.restart_error w.now c1 in
    let log = restarted c1.resolved_target ∷ s.log in
    let denied = record c1 { outcome = Outcome.nothing } in
    if not (is_approved msg.decision)
    then record s { place = leaving; log = stored denied w.ok ∷ s.log }
    else if not (outcome_pending c2.outcome)
    then record s { place = leaving; log = stored c2 w.ok ∷ log }
    else record s { place = dispatched c2; log = log }

-- hadUp && !upAt.Before(approvedAt); a zero time is before every time.
abbrev pub already_recovered : Option ℕ → Option ℕ → Bool
already_recovered none approved_at = false
already_recovered (some up_at) none = true
already_recovered (some up_at) (some approved_at) = leb approved_at up_at

-- Under the lock: the cycle awaits its outcome, or has it already.
unfoldable pub from_dispatched : HarnessCycle → Sys → Sys
from_dispatched c s = record s {
  harness = update_active (λ st. record st { awaiting_outcome = true }) s.harness s.harness.active;
  place = settling c (already_recovered (lookup c.subject s.harness.last_up) c.approved_at);
}

unfoldable pub from_settling : World → HarnessCycle → Bool → Sys → Sys
from_settling w c already s = record s {
  place = if already then closing (record c { outcome = Outcome.recovered }) else watching c;
  log = stored c w.ok ∷ s.log;
}

abbrev pub outcome_of : Option CycleState → Bool
outcome_of none = false
outcome_of (some st) = st.outcome

-- The `select` on the outcome and its timer; without either it waits.
unfoldable pub from_watching : World → HarnessCycle → Sys → Sys
from_watching w c s =
    if w.timer
    then record s { place = closing (record c { outcome = Outcome.action_failed }) }
    else if outcome_of s.harness.active
    then record s {
      harness = update_active (λ st. record st { outcome = false }) s.harness s.harness.active;
      place = closing (record c { outcome = Outcome.recovered });
    }
    else s

-- Under the lock the watch ends; then the outcome is saved.
unfoldable pub from_closing : World → HarnessCycle → Sys → Sys
from_closing w c s =
    let h = record s.harness { last_up = erase c.subject s.harness.last_up } in
    let c' = record c { outcome_at = some w.now } in
    record s {
      harness = update_active (λ st. record st { awaiting_outcome = false }) h h.active;
      place = cooling c';
      log = stored c' w.ok ∷ s.log;
    }

unfoldable pub from_cooling : Options → World → HarnessCycle → Sys → Sys
from_cooling o w c s = record s {
  harness = record s.harness {
    cooldown = insert c.subject (w.now + o.cooldown) s.harness.cooldown;
  };
  place = leaving;
}

-- The deferred function of runCycle.
unfoldable pub from_leaving : Sys → Sys
from_leaving s = record s {
  harness = record s.harness { active = none };
  place = idle;
  log = ended ∷ s.log;
}

-- The goroutine goes from its place to the next.
unfoldable pub go : Options → World → Place → Sys → Sys
go o w idle s = s
go o w (started id cs) s = from_started o w id cs s
go o w (proposing c) s = from_proposing c s
go o w (announcing c) s = from_announcing w c s
go o w (waiting c) s = from_waiting w c s
go o w (expiring c) s = from_expiring c s
go o w (decided c msg) s = from_decided w c msg s
go o w (dispatched c) s = from_dispatched c s
go o w (settling c already) s = from_settling w c already s
go o w (watching c) s = from_watching w c s
go o w (closing c) s = from_closing w c s
go o w (cooling c) s = from_cooling o w c s
go o w leaving s = from_leaving s

-- What may happen next: a commit of the spine, with a fresh id, an operator's decision, a halt, a
-- rearm, or a step of the goroutine.
pub data Move : Type 0 where
  commit : ℕ → String → CommittedStatus → Move
  operator : ℕ → String → String → Bool → Bool → Move
  halting : String → Move
  rearming : Move
  going : World → Move

abbrev pub begin : Bool → String → CommittedStatus → Sys → Sys
begin false id cs s = s
begin true id cs s = record s { place = started id cs; log = began id ∷ s.log }

abbrev pub log_saved : Option HarnessCycle → Bool → List Event → List Event
log_saved none ok log = log
log_saved (some c) ok log = stored c ok ∷ log

-- Approve, or Deny.
abbrev pub choice : Bool → Approval
choice true = Approval.approved
choice false = Approval.denied

unfoldable pub move : Options → Move → Sys → Sys
unfolding observe_commit decide
move o (commit now id cs) s =
    let (h, starts) = observe_commit o now id cs s.harness in
    begin starts id cs (record s { harness = h; log = observed cs ∷ s.log })
move o (operator now id who approve ok) s =
    let (h, saved, result) = decide now id who (choice approve) ok s.harness in
    record s { harness = h; log = log_saved saved ok s.log }
move o (halting reason) s = record s { harness = halt reason s.harness }
move o rearming s = record s { harness = rearm s.harness }
move o (going w) s = go o w s.place s

-- A run of the engine, from its start.
unfoldable pub run : Options → List Move → Sys → Sys
run o [] s = s
run o (v ∷ vs) s = run o vs (move o v s)

abbrev pub start : Sys
start = record { harness = new_harness; place = idle; log = [] }
