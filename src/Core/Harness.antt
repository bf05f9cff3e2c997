-- ===== src/Core/Harness.antt =====
-- internal/core/harness.go: the domain types of the harness. A zero `time.Time` is `none`.
use server_assistant.Prelude.{
  ℕ, String, Bool, false, Option, none, some, List, [], str_eq, if◌then◌else◌,
}
use server_assistant.Core.Domain.{Status, unknown}

pub data HarnessMode : Type 0 where
  off shadow live : HarnessMode

-- ParseHarnessMode; `fold` is strings.ToLower of strings.TrimSpace, and an unknown text is an error.
unfoldable pub parse_harness_mode : (String → String) → String → Option HarnessMode
parse_harness_mode fold s =
    let t = fold s in
    if str_eq t ""
    then some off
    else if str_eq t "off"
    then some off
    else if str_eq t "disabled"
    then some off
    else if str_eq t "shadow"
    then some shadow
    else if str_eq t "live"
    then some live
    else none

abbrev pub mode_text : HarnessMode → String
mode_text shadow = "shadow"
mode_text live = "live"
mode_text off = "off"

abbrev pub action_restart_container : String
action_restart_container = "restart_container"

abbrev pub action_none : String
action_none = "none"

-- The argument map of every call is {"service": `service`}.
pub record ToolCall : Type 0 where
  pub tool : String
  pub service : String
  pub output : String
  pub err : String
  pub at : ℕ
  pub duration : ℕ

pub record Usage : Type 0 where
  pub backend : String
  pub model : String
  pub prompt_tokens : ℕ
  pub completion_tokens : ℕ
  pub latency : ℕ

pub record ProposedAction : Type 0 where
  pub kind : String
  pub subject : String
  pub rationale : String

pub record Diagnosis : Type 0 where
  pub summary : String
  pub proposed : ProposedAction
  pub usage : Usage
  pub fallback : Bool

pub data Approval : Type 0 where
  pending approved denied expired not_requested : Approval

-- The outcome strings; `blank` is the empty string of a cycle that has none yet.
pub data Outcome : Type 0 where
  blank nothing pending recovered action_failed dispatch_error : Outcome

pub record HarnessCycle : Type 0 where
  pub id : String
  pub subject : String
  pub trigger_status : Status
  pub mode : HarnessMode
  pub started_at : Option ℕ
  pub tool_calls : List ToolCall
  pub diagnosis : Diagnosis
  pub approval : Approval
  pub approved_by : String
  pub approved_at : Option ℕ
  pub resolved_target : String
  pub dispatch_result : String
  pub dispatched_at : Option ℕ
  pub outcome : Outcome
  pub outcome_at : Option ℕ
  pub error : String

pub record ReasonerReply : Type 0 where
  pub action : String
  pub subject : String
  pub rationale : String
  pub summary : String
  pub usage : Usage

abbrev pub no_usage : Usage
no_usage = record {
  backend = "";
  model = "";
  prompt_tokens = 0;
  completion_tokens = 0;
  latency = 0;
}

abbrev pub no_action : ProposedAction
no_action = record { kind = action_none; subject = ""; rationale = "" }

abbrev pub blank_action : ProposedAction
blank_action = record { kind = ""; subject = ""; rationale = "" }

abbrev pub blank_diagnosis : Diagnosis
blank_diagnosis = record {
  summary = "";
  proposed = blank_action;
  usage = no_usage;
  fallback = false;
}

-- The zero value of a cycle.
abbrev pub zero_cycle : HarnessCycle
zero_cycle = record {
  id = "";
  subject = "";
  trigger_status = unknown;
  mode = off;
  started_at = none;
  tool_calls = [];
  diagnosis = blank_diagnosis;
  approval = Approval.pending;
  approved_by = "";
  approved_at = none;
  resolved_target = "";
  dispatch_result = "";
  dispatched_at = none;
  outcome = Outcome.blank;
  outcome_at = none;
  error = "";
}
