-- ===== src/Core/Domain.antt =====
-- internal/core/domain.go and status.go: statuses, probe results, the records that the spine
-- hands on, and the derivation of a status. Times and durations are nanoseconds.
use server_assistant.Prelude.{
  ℕ, String, Bool, Option, ◌≡◌, ◌↔◌, true, arith, ltb, ◌==◌, if◌then◌else◌, ◌&&◌,
}

pub data Status : Type 0 where
  unknown up degraded down : Status

-- The value of the Go constant, counted by `iota`.
abbrev pub status_code : Status → ℕ
status_code unknown = 0
status_code up = 1
status_code degraded = 2
status_code down = 3

unfoldable pub status_eq : Status → Status → Bool
status_eq s t = status_code s == status_code t

pub status_eq_iff : (s t : Status) → (status_eq s t ≡ true) ↔ (s ≡ t)
unfolding status_eq
status_eq_iff s t = ground arith

-- Status.String
abbrev pub status_text : Status → String
status_text up = "UP"
status_text degraded = "DEGRADED"
status_text down = "DOWN"
status_text unknown = "UNKNOWN"

-- The field Err of a probe result is read by no caller of the monitor, and is left out.
pub record ProbeResult : Type 0 where
  pub status : Status
  pub latency : ℕ

pub record Alert : Type 0 where
  pub subject : String
  pub status : Status
  pub message : String

pub record ServiceView : Type 0 where
  pub name : String
  pub status : Status
  pub latency : ℕ
  pub last_checked : Option ℕ

pub record ProbeSample : Type 0 where
  pub service : String
  pub status : Status
  pub latency : ℕ
  pub at : ℕ

pub record CommittedStatus : Type 0 where
  pub service : String
  pub status : Status
  pub changed_at : ℕ

-- DeriveStatus
unfoldable pub derive_status : ProbeResult → ℕ → Status
derive_status r threshold =
    if status_eq r.status up && ltb threshold r.latency then degraded else r.status
