-- ===== src/Core/Debouncer.antt =====
-- internal/core/debounce.go: a candidate status commits after n consecutive agreeing probes.
pub mod Spec
use server_assistant.Prelude.{ℕ, suc, ◌+◌, Bool, true, false, not, ◌&&◌, leb, if◌then◌else◌}
use server_assistant.Prelude.Int.{ℤ, pos, negsuc}
use server_assistant.Core.Domain.{Status, unknown, status_eq}

-- `n` is at least 1 after the constructor, so it and the streak are natural numbers.
pub record Debouncer : Type 0 where
  pub n : ℕ
  pub committed : Status
  pub candidate : Status
  pub streak : ℕ

-- if n < 1 { n = 1 }
abbrev pub at_least_one : ℤ → ℕ
at_least_one (pos k) = if leb 1 k then k else 1
at_least_one (negsuc k) = 1

unfoldable pub new_debouncer_with_status : ℤ → Status → Debouncer
new_debouncer_with_status n s = record {
  n = at_least_one n;
  committed = s;
  candidate = unknown;
  streak = 0;
}

unfoldable pub new_debouncer : ℤ → Debouncer
unfolding new_debouncer_with_status
new_debouncer n = new_debouncer_with_status n unknown

-- The first `if` of Observe: the streak of the candidate.
abbrev pub tally : Debouncer → Status → Debouncer
tally d s =
    if status_eq s d.candidate
    then record d { streak = d.streak + 1 }
    else record d { candidate = s; streak = 1 }

-- The second `if` of Observe: commit, and whether it changed.
abbrev pub settle : Debouncer → Debouncer × Bool
settle d =
    if not (status_eq d.candidate d.committed) && leb d.n d.streak
    then (record d { committed = d.candidate }, true)
    else (d, false)

-- Observe: the new state, and the flag `changed`; the returned status is the new `committed`.
unfoldable pub observe : Debouncer → Status → Debouncer × Bool
observe d s = settle (tally d s)
