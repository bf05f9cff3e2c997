-- ===== src/Harness.antt =====
-- internal/harness/harness.go: the engine's options and state, and the stages of one cycle. The
-- handlers are in Harness/Engine.antt, the goroutine of a cycle in Harness/Run.antt.
pub mod Engine
pub mod Run
pub mod Proposal
pub mod Safety
pub mod Flight
pub mod Decisions
pub mod Recovery
pub mod Reconcile
use server_assistant.Prelude.{
  ℕ, zero, suc, ◌+◌, String, Bool, true, false, not, ◌&&◌, ◌||◌, Option, none, some, List, [], ◌∷◌,
  concat, str_eq, leb, ltb, if◌then◌else◌, length, take,
}
use server_assistant.Prelude.Int.{ℤ, pos, negsuc}
use server_assistant.Prelude.Dict.{Dict, lookup}
use server_assistant.Core.Domain.{Status, status_text, CommittedStatus}
use server_assistant.Core.Harness.{
  HarnessMode, action_restart_container, action_none, ToolCall, Usage, no_usage, ProposedAction,
  Diagnosis, Approval, Outcome, HarnessCycle, ReasonerReply, no_action, zero_cycle,
}

-- The stores, the backends and the timers are inputs of the steps. `quote` is the verb %q of fmt.
pub record Options : Type 0 where
  pub mode : HarnessMode
  pub tools : List String
  pub targets : Dict String
  pub max_tool_calls : ℤ
  pub cooldown : ℕ
  pub quote : String → String

pub record ApprovalMsg : Type 0 where
  pub decision : Approval
  pub who : String
  pub at : Option ℕ

-- `decision` and `outcome` are the two channels, which hold one message or none.
pub record CycleState : Type 0 where
  pub id : String
  pub subject : String
  pub cycle : HarnessCycle
  pub decision : Option ApprovalMsg
  pub outcome : Bool
  pub awaiting_approval : Bool
  pub awaiting_outcome : Bool

pub record Harness : Type 0 where
  pub halted : Bool
  pub halt_reason : String
  pub active : Option CycleState
  pub cooldown : Dict ℕ
  pub last_up : Dict ℕ

-- New
abbrev pub new_harness : Harness
new_harness = record {
  halted = false;
  halt_reason = "";
  active = none;
  cooldown = [];
  last_up = [];
}

-- The first value of `cycle` in runCycle.
abbrev pub new_cycle : Options → String → CommittedStatus → ℕ → HarnessCycle
new_cycle o id cs started_at = record zero_cycle {
  id = id;
  subject = cs.service;
  trigger_status = cs.status;
  mode = o.mode;
  started_at = some started_at;
}

-- What a tool answers: the output, the error if any, and when and how long it ran.
pub record ToolAnswer : Type 0 where
  pub output : String
  pub err : Option String
  pub at : ℕ
  pub duration : ℕ

abbrev pub text_of : Option String → String
text_of none = ""
text_of (some e) = e

-- The number of tools that a sweep may call.
abbrev pub sweep_limit : ℤ → ℕ → ℕ
sweep_limit (pos k) n = if ltb k n then k else n
sweep_limit (negsuc k) n = n

-- The loop of diagnosisSweep from tool number `i` on: `expired i` is ctx.Err() != nil before the
-- call, `answer i` what the call answers.
unfoldable pub sweep_from :
    (expired : ℕ → Bool) (answer : ℕ → ToolAnswer) → String → ℕ → List String → List ToolCall
sweep_from expired answer subject i [] = []
sweep_from expired answer subject i (tool ∷ tools) =
    let rest = sweep_from expired answer subject (suc i) tools in
    let a = answer i in
    if expired i
    then []
    else record {
      tool = tool;
      service = subject;
      output = a.output;
      err = text_of a.err;
      at = a.at;
      duration = a.duration;
    }
      ∷ rest

-- diagnosisSweep
unfoldable pub diagnosis_sweep : Options → (ℕ → Bool) → (ℕ → ToolAnswer) → String → List ToolCall
unfolding sweep_from
diagnosis_sweep o expired answer subject =
    sweep_from expired answer subject 0
      (take (sweep_limit o.max_tool_calls (length o.tools)) o.tools)

-- runbook (internal/harness/runbook.go)
unfoldable pub runbook : String → Status → Diagnosis
runbook subject trigger = record {
  summary = concat "Runbook fallback: " (
      concat subject
        (concat " reported " (concat (status_text trigger) " and the Reasoner was unavailable.")));
  proposed = record {
    kind = action_restart_container;
    subject = subject;
    rationale = "Deterministic runbook: restart the service that triggered this cycle.";
  };
  usage = record no_usage { backend = "runbook" };
  fallback = true;
}

-- What Reasoner.Diagnose returns: an error's text, or a reply.
pub data Reasoned : Type 0 where
  failed : String → Reasoned
  replied : ReasonerReply → Reasoned

-- diagnose, with what the Reasoner returned for the prompt.
unfoldable pub diagnose : Reasoned → HarnessCycle → HarnessCycle
unfolding runbook
diagnose (failed e) c = record c {
  error = concat "reasoner: " e;
  diagnosis = runbook c.subject c.trigger_status;
}
diagnose (replied r) c = record c {
  diagnosis = record {
    summary = r.summary;
    proposed = record { kind = r.action; subject = r.subject; rationale = r.rationale };
    usage = r.usage;
    fallback = false;
  };
}

abbrev pub append_note : String → String → String
append_note existing note = if str_eq existing "" then note else concat existing (concat "; " note)

abbrev pub downgrade : String → HarnessCycle → HarnessCycle
downgrade note c = record c {
  error = append_note c.error note;
  diagnosis = record c.diagnosis { proposed = no_action };
}

abbrev pub unknown_action : Options → String → String
unknown_action o kind =
    concat "proposed unknown action " (concat (o.quote kind) ", downgraded to none")

abbrev pub unknown_subject : Options → String → String
unknown_subject o subject =
    concat "proposed unknown subject " (concat (o.quote subject) ", downgraded to none")

abbrev pub resolve : Options → String → Option String → HarnessCycle → HarnessCycle
resolve o subject none c = downgrade (unknown_subject o subject) c
resolve o subject (some target) c = record c { resolved_target = target }

-- validateProposal
unfoldable pub validate_proposal : Options → HarnessCycle → HarnessCycle
validate_proposal o c =
    let p = c.diagnosis.proposed in
    if not (str_eq p.kind action_restart_container) && not (str_eq p.kind action_none)
    then downgrade (unknown_action o p.kind) c
    else if str_eq p.kind action_none
    then c
    else resolve o p.subject (lookup p.subject o.targets) c

-- dispatch, with the error of RestartContainer, if any, and the time afterwards.
unfoldable pub dispatch : Option String → ℕ → HarnessCycle → HarnessCycle
dispatch (some e) now c = record c { dispatch_result = e; outcome = Outcome.dispatch_error }
dispatch none now c = record c {
  dispatch_result = "dispatched";
  dispatched_at = some now;
  outcome = Outcome.pending;
}
