-- ===== src/Scripts/Domain.antt =====
-- internal/scripts/domain.go: scripts, the lifecycle of a proposal, the audit log and grants.
-- A zero `time.Time` is `none`, and the empty state of an audit entry is `none`.
use server_assistant.Prelude.{
  ℕ, String, Bool, true, false, Option, none, some, List, [], ◌∷◌, ◌==◌, any, leb,
}

pub record Script : Type 0 where
  pub sha256 : String
  pub body : String
  pub created_at : ℕ

-- NewScript; `hash` is hex of SHA-256.
abbrev pub new_script : (String → String) → String → ℕ → Script
new_script hash body now = record { sha256 = hash body; body = body; created_at = now }

pub data ProposalState : Type 0 where
  proposed dry_run_ok dry_run_failed awaiting_approval approved denied expired running :
      ProposalState
  succeeded failed precondition_failed : ProposalState

abbrev pub state_code : ProposalState → ℕ
state_code proposed = 0
state_code dry_run_ok = 1
state_code dry_run_failed = 2
state_code awaiting_approval = 3
state_code approved = 4
state_code denied = 5
state_code expired = 6
state_code running = 7
state_code succeeded = 8
state_code failed = 9
state_code precondition_failed = 10

abbrev pub state_eq : ProposalState → ProposalState → Bool
state_eq s t = state_code s == state_code t

-- The map `transitions`.
abbrev pub transitions : ProposalState → List ProposalState
transitions proposed = dry_run_ok ∷ dry_run_failed ∷ []
transitions dry_run_ok = awaiting_approval ∷ []
transitions dry_run_failed = proposed ∷ []
transitions awaiting_approval = approved ∷ denied ∷ expired ∷ proposed ∷ []
transitions approved = running ∷ proposed ∷ []
transitions denied = []
transitions expired = []
transitions running = succeeded ∷ failed ∷ precondition_failed ∷ []
transitions succeeded = []
transitions precondition_failed = awaiting_approval ∷ []
transitions failed = []

-- CanTransitionTo
abbrev pub can_transition_to : ProposalState → ProposalState → Bool
can_transition_to s next = any (λ n. state_eq n next) (transitions s)

-- Terminal
abbrev pub is_terminal : ProposalState → Bool
is_terminal s = elim (transitions s) [ [] ↦ true | n ∷ ns ↦ false ]

pub record TranscriptEntry : Type 0 where
  pub time : ℕ
  pub pid : ℕ
  pub kind : String
  pub raw : String

pub record Proposal : Type 0 where
  pub id : String
  pub script_hash : String
  pub state : ProposalState
  pub created_at : ℕ
  pub updated_at : ℕ
  pub reject_reasons : List String
  pub warnings : List String
  pub transcript : List TranscriptEntry
  pub approved_by : String
  pub approved_at : Option ℕ
  pub denied_by : String
  pub denied_at : Option ℕ
  pub deny_reason : String

pub record AuditEntry : Type 0 where
  pub id : String
  pub proposal_id : String
  pub from_state : Option ProposalState
  pub to_state : ProposalState
  pub actor : String
  pub reason : String
  pub at : ℕ

pub data GrantScope : Type 0 where
  session standing : GrantScope

pub record Grant : Type 0 where
  pub id : String
  pub script_hash : String
  pub scope : GrantScope
  pub session_id : String
  pub api_key_id : String
  pub granted_at : ℕ
  pub expires_at : Option ℕ
  pub last_run_at : Option ℕ
  pub revoked_at : Option ℕ

-- !g.ExpiresAt.IsZero() && !now.Before(g.ExpiresAt)
abbrev pub has_elapsed : ℕ → Option ℕ → Bool
has_elapsed now none = false
has_elapsed now (some at) = leb at now

-- Expired
abbrev pub is_expired : Grant → ℕ → Bool
is_expired g now = has_elapsed now g.expires_at

-- Revoked
abbrev pub is_revoked : Grant → Bool
is_revoked g = elim g.revoked_at [ none ↦ false | some at ↦ true ]
