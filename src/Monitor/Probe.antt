-- ===== src/Monitor/Probe.antt =====
-- hostProbeOnce and probeOnce of internal/monitor/monitor.go, each split where it waits for the
-- prober: what happens before the answer, and what happens after it.
use mathlib.Core.List.{foldl}
use server_assistant.Prelude.{
  ℕ, zero, suc, ◌-◌, String, Bool, false, not, ◌&&◌, Option, none, some, List, [], ◌∷◌, ◌++◌, map,
  concat, if◌then◌else◌, get_elem?, set,
}
use server_assistant.Prelude.Int.{ℤ, pos, negsuc}
use server_assistant.Prelude.Dict.{Dict, lookup}
use server_assistant.Core.Domain.{
  Status, unknown, degraded, down, status_eq, status_text, ProbeResult, Alert, ServiceView,
  ProbeSample, CommittedStatus, derive_status,
}
use server_assistant.Core.Debouncer.{observe}
use server_assistant.Monitor.{
  ServiceRuntime, HostRuntime, Monitor, Effect, probed, recorded, pruned, save, notified, broadcast,
  sunk, Answers, unknown_view, set_view,
}

-- prune: a retention of zero or less prunes nothing.
abbrev pub prune : ℤ → String → ℕ → List Effect
prune (pos zero) subject now = []
prune (pos (suc r)) subject now = pruned subject (now - suc r) ∷ []
prune (negsuc r) subject now = []

-- The calls that a committed change makes before the dashboard is told.
abbrev pub announce : Bool → CommittedStatus → Alert → List Effect
announce changed cs alert = if changed then save cs ∷ notified alert ∷ [] else []

-- publishCommit, under its condition `changed && persisted`.
abbrev pub publish : Bool → Bool → Bool → CommittedStatus → List Effect
publish changed persisted sink cs = if changed && persisted && sink then sunk cs ∷ [] else []

-- m.host != nil && !m.gate.Load()
abbrev pub is_blind : Monitor → Bool
is_blind m = elim m.host [ none ↦ false | some h ↦ not m.gate ]

-- m.views[name].Status: of a name without a view it is the zero value, UNKNOWN.
unfoldable pub view_status : Dict ServiceView → String → Status
view_status views name = elim (lookup name views) [ none ↦ unknown | some v ↦ v.status ]

abbrev pub host_message : String → Status → String
host_message name down = concat name " is unreachable"
host_message name degraded = concat name " is degraded"
host_message name _ = concat name " is reachable"

-- The views that the closing of the gate forces.
abbrev pub forced_views : Bool → ℕ → List ServiceRuntime → List ServiceView
forced_views closing now svcs = if closing then map (λ s. unknown_view now s.name) svcs else []

-- hostProbeOnce after the prober has answered `res`.
unfoldable pub host_measured : Answers → HostRuntime → ProbeResult → Monitor → Monitor × List Effect
host_measured env h res m =
    let reachable = not (status_eq res.status down) in
    let view : ServiceView = record {
      name = h.name;
      status = res.status;
      latency = res.latency;
      last_checked = some env.now;
    } in
    let forced = forced_views (m.gate && not reachable) env.now m.svcs in
    let (deb, changed) = observe h.deb res.status in
    let cs : CommittedStatus = record {
      service = h.name;
      status = deb.committed;
      changed_at = env.now;
    } in
    let alert : Alert = record {
      subject = h.name;
      status = deb.committed;
      message = host_message h.name deb.committed;
    } in
    let sample : ProbeSample = record {
      service = h.name;
      status = res.status;
      latency = res.latency;
      at = env.now;
    } in
    (
      record m {
        gate = reachable;
        views = foldl set_view (set_view m.views view) forced;
        host = some (record h { deb = deb });
      },
      recorded sample
          ∷ (prune m.retain h.name env.now
              ++ (map broadcast forced
                  ++ (announce changed cs alert
                      ++ (broadcast view ∷ publish changed env.save_ok m.sink cs)))),
    )

-- hostProbeOnce: an error of the prober is no measurement.
abbrev pub host_answered :
    Answers → HostRuntime → Option ProbeResult → Monitor → Monitor × List Effect
host_answered env h none m = (m, [])
host_answered env h (some res) m = host_measured env h res m

abbrev pub host_probe_with : Answers → Option HostRuntime → Monitor → Monitor × List Effect
host_probe_with env none m = (m, [])
host_probe_with env (some h) m =
    let (m', effects) = host_answered env h env.probe m in (m', probed h.name ∷ effects)

-- hostProbeOnce; Run calls it only when a host is configured.
unfoldable pub host_probe_once : Answers → Monitor → Monitor × List Effect
host_probe_once env m = host_probe_with env m.host m

-- The blind branch of probeOnce.
unfoldable pub probe_blind : ℕ → ServiceRuntime → Monitor → Monitor × List Effect
probe_blind now s m =
    let v = unknown_view now s.name in
    if status_eq (view_status m.views s.name) unknown
    then (m, [])
    else (record m { views = set_view m.views v }, broadcast v ∷ [])

-- probeOnce of the service at place `i`, after the prober has answered `res`.
unfoldable pub probe_measured :
    Answers → ℕ → ServiceRuntime → ProbeResult → Monitor → Monitor × List Effect
probe_measured env i s res m =
    let derived = derive_status res s.threshold in
    let (deb, changed) = observe s.deb derived in
    let view : ServiceView = record {
      name = s.name;
      status = deb.committed;
      latency = res.latency;
      last_checked = some env.now;
    } in
    let cs : CommittedStatus = record {
      service = s.name;
      status = deb.committed;
      changed_at = env.now;
    } in
    let alert : Alert = record {
      subject = s.name;
      status = deb.committed;
      message = concat s.name (concat " is now " (status_text deb.committed));
    } in
    let sample : ProbeSample = record {
      service = s.name;
      status = derived;
      latency = res.latency;
      at = env.now;
    } in
    (
      record m { svcs = set m.svcs i (record s { deb = deb }); views = set_view m.views view },
      recorded sample
          ∷ (prune m.retain s.name env.now
              ++ (announce changed cs alert
                  ++ (broadcast view ∷ publish changed env.save_ok m.sink cs))),
    )

abbrev pub probe_answered :
    Answers → ℕ → ServiceRuntime → Option ProbeResult → Monitor → Monitor × List Effect
probe_answered env i s none m = (m, [])
probe_answered env i s (some res) m = probe_measured env i s res m

-- probeOnce of a service, when nothing else runs while the prober works.
unfoldable pub probe_service : Answers → ℕ → ServiceRuntime → Monitor → Monitor × List Effect
unfolding probe_blind
probe_service env i s m =
    let (m', effects) = probe_answered env i s env.probe m in
    if is_blind m then probe_blind env.now s m else (m', probed s.name ∷ effects)

abbrev pub probe_at : Answers → ℕ → Option ServiceRuntime → Monitor → Monitor × List Effect
probe_at env i none m = (m, [])
probe_at env i (some s) m = probe_service env i s m

-- probeOnce of the service at place `i`.
unfoldable pub probe_once : Answers → ℕ → Monitor → Monitor × List Effect
probe_once env i m = probe_at env i (get_elem? m.svcs i) m
