-- ===== src/Monitor/Blind.antt =====
-- What probeOnce of internal/monitor/monitor.go does while the host is unreachable.
use text.Mathlib.TextPositions.{eq_refl}
use server_assistant.Prelude.{ℕ, ◌≡◌, refl, true, some, List, get_elem?, All, Bool-cases, inl, inr}
use server_assistant.Core.Domain.{unknown, status_eq, status_eq_iff}
use server_assistant.Monitor.{ServiceRuntime, Monitor, Effect, broadcast, Answers}
use server_assistant.Monitor.Probe.{is_blind, view_status, probe_blind, probe_service, probe_once}
use server_assistant.Monitor.Views.{view_status-set_view}

-- A call that claims nothing of the subject: a broadcast of an UNKNOWN view.
abbrev pub ClaimsNothing : Effect → Type 0
ClaimsNothing (broadcast v) = v.status ≡ unknown
ClaimsNothing _ = ⊥

-- Only the views change, only by an UNKNOWN one, and the service reads UNKNOWN at the end.
pub record IsSilent (s : ServiceRuntime) (m : Monitor) (r : Monitor × List Effect) : Type 0 where
  pub svcs : r.0.svcs ≡ m.svcs
  pub gate : r.0.gate ≡ m.gate
  pub host : r.0.host ≡ m.host
  pub silent : All ClaimsNothing r.1
  pub reads_unknown : view_status r.0.views s.name ≡ unknown

probe_blind-IsSilent :
    (now : ℕ) (s : ServiceRuntime) (m : Monitor) → IsSilent s m (probe_blind now s m)
unfolding probe_blind
probe_blind-IsSilent now s m = elim (Bool-cases (status_eq (view_status m.views s.name) unknown)) [
  | inl e ↦ rw e (record {
    svcs = refl;
    gate = refl;
    host = refl;
    silent = tt;
    reads_unknown = (status_eq_iff _ _).0 e;
  })
  | inr e ↦ rw e (record {
    svcs = refl;
    gate = refl;
    host = refl;
    silent = (refl, tt);
    reads_unknown = rw view_status-set_view (rw eq_refl);
  })
]

-- While the host is unreachable a probe of a service calls no prober, records, saves and alerts
-- nothing, leaves every debouncer, the host and the gate as they are, and the service's view
-- reads UNKNOWN.
pub probe_once-blind :
    (env : Answers) (i : ℕ) (s : ServiceRuntime) (m : Monitor)
    → is_blind m ≡ true
    → get_elem? m.svcs i ≡ some s
    → IsSilent s m (probe_once env i m)
unfolding probe_once probe_service
probe_once-blind env i s m blind at = rw (at, blind) (probe_blind-IsSilent env.now s m)
