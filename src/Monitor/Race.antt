-- ===== src/Monitor/Race.antt =====
-- The window of probeOnce in internal/monitor/monitor.go between its test of the gate and the
-- answer of the prober, when the host's loop closes the gate in between.
use server_assistant.Prelude.{ℕ, ◌∙◌, ◌≤◌, ◌≡◌, ◌≢◌, refl, true, false, List, arith}
use server_assistant.Core.Domain.{up, down, status_eq_iff, ProbeResult, derive_status}
use server_assistant.Core.Debouncer.{observe}
use server_assistant.Monitor.{ServiceRuntime, HostRuntime, Monitor, Effect, Answers}
use server_assistant.Monitor.Probe.{host_measured, probe_measured}
use server_assistant.Monitor.Alerts.{
  lasting, lasting-probe_measured, commit_calls, service_commit, service_alert,
}

-- A service's probe is under way when the gate closes: the host answers DOWN, and then the
-- service's prober answers. The state after both, and the calls of the second.
unfoldable pub overtaken :
    Answers
    → HostRuntime
    → ProbeResult
    → Answers
    → ℕ
    → ServiceRuntime
    → ProbeResult
    → Monitor
    → Monitor × List Effect
overtaken henv h hres env i s res m = probe_measured env i s res (host_measured henv h hres m).0

down_commits :
    (d : ServiceRuntime)
    → d.deb.n ≤ 1
    → d.deb.committed ≢ down
    → ((observe d.deb down).1 ≡ true) × ((observe d.deb down).0.committed ≡ down)
unfolding observe
down_commits d one other = (
  ground (
    arith,
    one,
    other,
    status_eq_iff down d.deb.candidate,
    status_eq_iff down d.deb.committed,
    status_eq_iff d.deb.candidate d.deb.committed,
  ),
  ground (
    arith,
    one,
    other,
    status_eq_iff down d.deb.candidate,
    status_eq_iff down d.deb.committed,
    status_eq_iff d.deb.candidate d.deb.committed,
  ),
)

derive_down :
    (res : ProbeResult) (threshold : ℕ) → res.status ≡ down → derive_status res threshold ≡ down
unfolding derive_status
derive_down res threshold e = ground (arith, e, status_eq_iff res.status up)

-- If the gate closes, by a host that answers DOWN, while the probe of a service is under way that
-- then answers DOWN too, and the service commits on one probe and was not committed DOWN: the gate
-- is closed, and still DOWN is saved and alerted for the service.
pub overtaken_alerts :
    (henv : Answers) (h : HostRuntime) (hres : ProbeResult) (env : Answers) (i : ℕ)
    (s : ServiceRuntime) (res : ProbeResult) (m : Monitor)
    → hres.status ≡ down
    → res.status ≡ down
    → s.deb.n ≤ 1
    → s.deb.committed ≢ down
    → let (m', effects) = overtaken henv h hres env i s res m in
      (m'.gate ≡ false)
      × (lasting effects
          ≡ commit_calls env.save_ok m.sink
              (service_commit s.name down env.now)
              (service_alert s.name down))
unfolding overtaken
overtaken_alerts henv h hres env i s res m hdown sdown one other =
    let (changed, committed) = down_commits s one other in
    (
      unfold probe_measured host_measured in ground (arith, hdown, status_eq_iff hres.status down),
      lasting-probe_measured env i s res (host_measured henv h hres m).0
          ∙ simp (derive_down res s.threshold sdown, changed, committed)
              (unfold host_measured in refl),
    )
