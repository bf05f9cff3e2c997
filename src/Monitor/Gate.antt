-- ===== src/Monitor/Gate.antt =====
-- The reachability gate of internal/monitor/monitor.go over whole runs: the poll loops of the host
-- and of the services and the live reconfiguration, in any order, one call at a time.
use mathlib.Core.List.{foldl}
use server_assistant.Prelude.{
  ℕ, zero, suc, String, ◌≡◌, refl, ◌∙◌, Bool, true, false, not, ◌&&◌, none, some, List, [], ◌∷◌,
  ◌++◌, map, arith, get_elem?, set, eq_iff, Bool-cases, Option-cases, inl, inr, if◌then◌else◌,
}
use server_assistant.Prelude.Dict.{Dict}
use server_assistant.Core.Domain.{unknown, down, status_eq, ProbeResult, ServiceView, derive_status}
use server_assistant.Core.Debouncer.{observe}
use server_assistant.Monitor.{
  Service, ServiceRuntime, HostRuntime, Monitor, Effect, Answers, set_view, unknown_view,
  reconfigure, reconfigure_service, last_named,
}
use server_assistant.Monitor.Probe.{
  is_blind, view_status, host_measured, host_probe_once, probe_measured, probe_blind, probe_service,
  probe_once, forced_views,
}
use server_assistant.Monitor.Views.{is_service, view_status-set_view, view_status-force}

-- One call of the running monitor: a tick of the host's loop, a tick of the loop of the service at
-- a place, or a live reconfiguration.
pub data Tick : Type 0 where
  host_tick : Answers → Tick
  service_tick : Answers → ℕ → Tick
  reconfigured : List Service → Tick

unfoldable pub tick : Tick → Monitor → Monitor × List Effect
tick (host_tick env) m = host_probe_once env m
tick (service_tick env i) m = probe_once env i m
tick (reconfigured svcs) m = (reconfigure svcs m, [])

unfoldable pub run : List Tick → Monitor → Monitor × List Effect
run [] m = (m, [])
run (t ∷ ts) m = let (m', es) = tick t m in let (m'', rest) = run ts m' in (m'', es ++ rest)

-- While the gate is closed every service reads UNKNOWN; the host is no service.
pub record IsGated (m : Monitor) : Type 0 where
  pub apart : (h : HostRuntime) → m.host ≡ some h → is_service h.name m.svcs ≡ false
  pub blind :
      (k : String) → m.gate ≡ false → is_service k m.svcs ≡ true → view_status m.views k ≡ unknown
  pub open_alone : m.host ≡ none → m.gate ≡ true

is_service-set :
    (svcs : List ServiceRuntime) (i : ℕ) (s t : ServiceRuntime) (k : String)
    → get_elem? svcs i ≡ some s
    → t.name ≡ s.name
    → is_service k (set svcs i t) ≡ is_service k svcs
is_service-set [] i s t k h e = refl
is_service-set (x ∷ svcs) zero s t k h e = ground (arith, h, e)
is_service-set (x ∷ svcs) (suc i) s t k h e = ground (arith, is_service-set svcs i s t k h e)

name-reconfigure_service :
    (incoming : List Service) (rt : ServiceRuntime)
    → (reconfigure_service incoming rt).name ≡ rt.name
name-reconfigure_service incoming rt = elim (Option-cases (last_named rt.name incoming)) [
  | inl e ↦ rw (e, reconfigure_service)
  | inr (n, e) ↦ rw (e, reconfigure_service)
]

is_service-reconfigure :
    (incoming : List Service) (svcs : List ServiceRuntime) (k : String)
    → is_service k (map (reconfigure_service incoming) svcs) ≡ is_service k svcs
is_service-reconfigure incoming [] k = refl
is_service-reconfigure incoming (s ∷ svcs) k =
    rw (name-reconfigure_service incoming s) (rw (is_service-reconfigure incoming svcs k))

-- hostProbeOnce sets the gate from this probe alone: open exactly if the host is not DOWN.
pub gate-host_measured :
    (env : Answers) (h : HostRuntime) (res : ProbeResult) (m : Monitor)
    → (host_measured env h res m).0.gate ≡ not (status_eq res.status down)
unfolding host_measured
gate-host_measured env h res m = refl

view_status-forced :
    (b : Bool) (now : ℕ) (svcs : List ServiceRuntime) (views : Dict ServiceView) (k : String)
    → view_status (foldl set_view views (forced_views b now svcs)) k
      ≡ (if b && is_service k svcs then unknown else view_status views k)
view_status-forced true now svcs views k = view_status-force now svcs views k
view_status-forced false now svcs views k = refl

host_measured-IsGated :
    (env : Answers) (h : HostRuntime) (res : ProbeResult) (m : Monitor)
    → m.host ≡ some h
    → IsGated m
    → IsGated (host_measured env h res m).0
unfolding host_measured
host_measured-IsGated env h res m at g = record {
  apart = λ h' e. ground (arith, e, g.apart h at);
  blind = λ k closed served.
      let v : ServiceView = record {
        name = h.name;
        status = res.status;
        latency = res.latency;
        last_checked = some env.now;
      } in
      ground (
        arith,
        closed,
        served,
        g.blind k,
        g.apart h at,
        eq_iff h.name k,
        view_status-forced (m.gate && not (not (status_eq res.status down))) env.now m.svcs
            (set_view m.views v) k,
        view_status-set_view m.views v k,
      );
  open_alone = λ e. cc;
}

sighted_open : (m : Monitor) → is_blind m ≡ false → IsGated m → m.gate ≡ true
sighted_open m sighted g = ground (arith, sighted, g.open_alone)

probe_blind-IsGated :
    (now : ℕ) (s : ServiceRuntime) (m : Monitor) → IsGated m → IsGated (probe_blind now s m).0
unfolding probe_blind
probe_blind-IsGated now s m g = elim (Bool-cases (status_eq (view_status m.views s.name) unknown)) [
  | inl e ↦ rw e g
  | inr e ↦ rw e (record {
    apart = g.apart;
    blind = λ k closed served.
        ground (
          arith,
          view_status-set_view m.views (unknown_view now s.name) k,
          g.blind k closed served,
        );
    open_alone = g.open_alone;
  })
]

probe_measured-IsGated :
    (env : Answers) (i : ℕ) (s : ServiceRuntime) (res : ProbeResult) (m : Monitor)
    → get_elem? m.svcs i ≡ some s
    → m.gate ≡ true
    → IsGated m
    → IsGated (probe_measured env i s res m).0
unfolding probe_measured
probe_measured-IsGated env i s res m at opened g = record {
  apart = λ h e.
      is_service-set m.svcs i s
        (record s { deb = (observe s.deb (derive_status res s.threshold)).0 }) h.name at refl
      ∙ g.apart h e;
  blind = λ k closed served. cc;
  open_alone = λ e. opened;
}

probe_service-IsGated :
    (env : Answers) (i : ℕ) (s : ServiceRuntime) (m : Monitor)
    → get_elem? m.svcs i ≡ some s
    → IsGated m
    → IsGated (probe_service env i s m).0
unfolding probe_service
probe_service-IsGated env i s m at g = elim (Bool-cases (is_blind m)) [
  | inl b ↦ rw b (probe_blind-IsGated env.now s m g)
  | inr b ↦ elim (Option-cases env.probe) [
    | inl e ↦ simp (b, e) g
    | inr (res, e) ↦ simp (b, e) (probe_measured-IsGated env i s res m at (sighted_open m b g) g)
  ]
]

probe_once-IsGated :
    (env : Answers) (i : ℕ) (m : Monitor) → IsGated m → IsGated (probe_once env i m).0
unfolding probe_once
probe_once-IsGated env i m g = elim (Option-cases (get_elem? m.svcs i)) [
  | inl e ↦ rw e g
  | inr (s, e) ↦ rw e (probe_service-IsGated env i s m e g)
]

host_probe_once-IsGated :
    (env : Answers) (m : Monitor) → IsGated m → IsGated (host_probe_once env m).0
unfolding host_probe_once
host_probe_once-IsGated env m g = elim (Option-cases m.host) [
  | inl e ↦ simp e g
  | inr (h, e) ↦ elim (Option-cases env.probe) [
    | inl none_yet ↦ simp (e, none_yet) g
    | inr (res, answered) ↦ simp (e, answered) (host_measured-IsGated env h res m e g)
  ]
]

reconfigure-IsGated : (svcs : List Service) (m : Monitor) → IsGated m → IsGated (reconfigure svcs m)
unfolding reconfigure
reconfigure-IsGated svcs m g = record {
  apart = λ h e. rw is_service-reconfigure (g.apart h e);
  blind = λ k closed served. g.blind k closed (rw is_service-reconfigure at served);
  open_alone = g.open_alone;
}

tick-IsGated : (t : Tick) (m : Monitor) → IsGated m → IsGated (tick t m).0
unfolding tick
tick-IsGated (host_tick env) m g = host_probe_once-IsGated env m g
tick-IsGated (service_tick env i) m g = probe_once-IsGated env i m g
tick-IsGated (reconfigured svcs) m g = reconfigure-IsGated svcs m g

-- Whatever ticks the loops of a monitor make, one at a time: if no service has the host's name and
-- every service read UNKNOWN while the gate was closed, then so it is afterwards; and a monitor
-- without a host keeps its gate open.
pub run-IsGated : (ts : List Tick) (m : Monitor) → IsGated m → IsGated (run ts m).0
unfolding run
run-IsGated [] m g = g
run-IsGated (t ∷ ts) m g = run-IsGated ts (tick t m).0 (tick-IsGated t m g)
