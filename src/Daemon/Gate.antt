-- ===== src/Daemon/Gate.antt =====
-- The composition of internal/config, cmd/server-assistant/main.go and internal/monitor: a monitor
-- that an accepted configuration builds keeps the reachability gate in every run.
use server_assistant.Prelude.{
  String, ◌≡◌, refl, ◌∙◌, Bool, true, false, ◌&&◌, ◌||◌, Option, none, some, List, [], ◌∷◌, ◌++◌,
  map, arith, str_eq, Option-cases, inl, inr,
}
use server_assistant.Core.Domain.{CommittedStatus}
use server_assistant.Monitor.{
  ServiceRuntime, HostRuntime, Monitor, new_monitor, set_host, resume, resume_service, resume_host,
  last_saved, start_service,
}
use server_assistant.Monitor.Views.{is_service}
use server_assistant.Monitor.Gate.{Tick, run, IsGated, run-IsGated}
use server_assistant.Config.Checked.{good, accepted_bind}
use server_assistant.Config.Records.{ServiceConfig, HostConfig, Config}
use server_assistant.Config.Library.{Library}
use server_assistant.Config.Blocks.{contains}
use server_assistant.Config.Validate.{is_set, service_names}
use server_assistant.Config.Sound.{transport_good}
use server_assistant.Config.Sound.Loaded.{WhenSet, IsHostWired}
use server_assistant.Daemon.Wiring.{
  Ports, Engine, Daemon, knobs_of, self_service, harness_name, attach_host, new_spine, wire,
  start_daemon,
}
use server_assistant.Daemon.Started.{started_daemon}

-- No service has the host's name.
record IsApart (m : Monitor) : Type 0 where
  names : (h : HostRuntime) → m.host ≡ some h → is_service h.name m.svcs ≡ false

name-resume_service :
    (saved : List CommittedStatus) (s : ServiceRuntime) → (resume_service saved s).name ≡ s.name
name-resume_service saved s = elim (Option-cases (last_saved s.name saved)) [
  | inl e ↦ rw (e, resume_service)
  | inr (cs, e) ↦ rw (e, resume_service)
]

is_service-resume :
    (saved : List CommittedStatus) (svcs : List ServiceRuntime) (k : String)
    → is_service k (map (resume_service saved) svcs) ≡ is_service k svcs
is_service-resume saved [] k = refl
is_service-resume saved (s ∷ svcs) k =
    rw (name-resume_service saved s) (rw (is_service-resume saved svcs k))

-- Restoring the host keeps its name and the services.
resume_host-IsApart :
    (saved : List CommittedStatus) (host : HostRuntime) (m : Monitor)
    → m.host ≡ some host
    → is_service host.name m.svcs ≡ false
    → IsApart (resume_host saved host m)
resume_host-IsApart saved host m e apart = elim (Option-cases (last_saved host.name saved)) [
  | inl unsaved ↦
      rw (unsaved, resume_host) (record { names = λ h at. ground (arith, at, e, apart) })
  | inr (cs, found) ↦ rw (found, resume_host) (record { names = λ h at. ground (arith, at, apart) })
]

resume-IsApart : (saved : List CommittedStatus) (m : Monitor) → IsApart m → IsApart (resume saved m)
unfolding resume
resume-IsApart saved m apart = elim (Option-cases m.host) [
  | inl e ↦ rw (e, resume) (record { names = λ h at. cc })
  | inr (host, e) ↦
      rw (e, resume)
        (resume_host-IsApart saved host _ e
          (is_service-resume saved m.svcs host.name ∙ apart.names host e))
]

is_service-knobs :
    (engine : Option Engine) (ss : List ServiceConfig) (k : String)
    → is_service k (map start_service (map knobs_of ss ++ self_service engine))
      ≡ (contains k (service_names ss) || (is_set engine && str_eq harness_name k))
is_service-knobs none [] k = refl
is_service-knobs (some e) [] k = ground arith
is_service-knobs engine (s ∷ ss) k = ground (arith, is_service-knobs engine ss k)

attach_host-IsApart :
    (o : Option HostConfig) (m : Monitor)
    → m.host ≡ none
    → WhenSet (λ (h : HostConfig). is_service h.name m.svcs ≡ false) o
    → IsApart (attach_host o m)
unfolding set_host
attach_host-IsApart none m bare apart = record { names = λ h at. cc }
attach_host-IsApart (some host) m bare apart = record { names = λ h at. ground (arith, at, apart) }

WhenSet-both :
    (P Q R : HostConfig → Type 0) (o : Option HostConfig)
    → ((h : HostConfig) → P h → Q h → R h)
    → WhenSet P o
    → WhenSet Q o
    → WhenSet R o
WhenSet-both P Q R none join p q = tt
WhenSet-both P Q R (some h) join p q = join h p q

new_spine-IsApart :
    (c : Config) (engine : Option Engine) (has_ssh : Bool)
    → WhenSet (IsHostWired (service_names c.services) has_ssh) c.host
    → WhenSet (λ (h : HostConfig). (is_set engine && str_eq harness_name h.name) ≡ false) c.host
    → IsApart (new_spine c engine)
unfolding new_spine new_monitor
new_spine-IsApart c engine has_ssh wired unclaimed = attach_host-IsApart c.host _ refl (
    WhenSet-both _ _ _ c.host
      (λ h w u. ground (arith, is_service-knobs engine c.services h.name, w.apart, u)) wired
      unclaimed)

wire-IsApart :
    (lib : Library) (ports : Ports) (c : Config) (d : Daemon)
    → wire lib ports c ≡ good d
    → WhenSet (IsHostWired (service_names c.services) (is_set c.ssh)) c.host
    → WhenSet (λ (h : HostConfig). (is_set d.engine && str_eq harness_name h.name) ≡ false) c.host
    → IsApart d.monitor
unfolding wire
wire-IsApart lib ports c d wired =
    let o = accepted_bind _ _ wired in
    let m = accepted_bind _ _ o.2 in
    let n = accepted_bind _ _ m.2 in
    let r = accepted_bind _ _ n.2 in
    let k = accepted_bind _ _ r.2 in
    let e = accepted_bind _ _ k.2 in
    let s = accepted_bind _ _ e.2 in
    transport_good
      (λ (x : Daemon).
        WhenSet (IsHostWired (service_names c.services) (is_set c.ssh)) c.host
        → WhenSet (λ (h : HostConfig). (is_set x.engine && str_eq harness_name h.name) ≡ false)
            c.host
        → IsApart x.monitor)
      (λ host unclaimed.
        resume-IsApart s.0 (new_spine c e.0)
          (new_spine-IsApart c e.0 (is_set c.ssh) host unclaimed))
      s.2

-- While the daemon runs, whatever ticks and live reloads follow: the configuration was accepted, the
-- host does not have the name that the harness takes on the spine, and the host was not restored as
-- DOWN. Then no service ever has the host's name, every service reads UNKNOWN while the gate is
-- closed, and without a host the gate stays open.
pub daemon_keeps_gate :
    (lib : Library) (ports : Ports) (path : String) (c : Config) (d : Daemon) (ts : List Tick)
    → start_daemon lib ports path ≡ good (c, d)
    → WhenSet (λ (h : HostConfig). (is_set d.engine && str_eq harness_name h.name) ≡ false) c.host
    → d.monitor.gate ≡ true
    → IsGated (run ts d.monitor).0
daemon_keeps_gate lib ports path c d ts started unclaimed opened =
    let (wired, sound) = started_daemon lib ports path c d started in
    let apart = wire-IsApart lib ports c d wired sound.host unclaimed in
    run-IsGated ts d.monitor
      (record { apart = apart.names; blind = λ k closed served. cc; open_alone = λ e. opened })
