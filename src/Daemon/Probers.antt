-- ===== src/Daemon/Probers.antt =====
-- The composition of internal/config and cmd/server-assistant/main.go: the probers that an accepted
-- configuration gives, and that such a configuration starts.
use mathlib.Core.Path.{subst}
use server_assistant.Prelude.{
  String, ◌≡◌, refl, sym, Bool, true, false, not, ◌&&◌, Option, none, some, List, [], ◌∷◌, map,
  arith, All, All-append,
}
use server_assistant.Prelude.Int.{is_positive}
use server_assistant.Config.Checked.{good, accepted_bind}
use server_assistant.Config.Texts.{is_empty}
use server_assistant.Config.Records.{ServiceConfig, SshConfig, HostConfig, Config}
use server_assistant.Config.Library.{Library}
use server_assistant.Config.Validate.{is_set, service_names}
use server_assistant.Config.Sound.{IsServiceSound, transport_good}
use server_assistant.Config.Sound.Loaded.{WhenSet, IsHostWired}
use server_assistant.Daemon.Wiring.{
  Ports, Runner, runner_if, Prober, container_probe, tcp_probe, http_probe, harness_probe,
  host_metrics_probe, reachability_probe, new_prober, Engine, self_prober, new_host_prober, Daemon,
  wire, start_daemon,
}
use server_assistant.Daemon.Started.{started_daemon}

-- A prober that can measure: it has a target, a runner where it needs one, and a positive deadline
-- where it sets one itself.
abbrev pub IsProbing : Prober → Type 0
IsProbing (container_probe name runner container) =
    (is_set runner ≡ true) × (is_empty container ≡ false)
IsProbing (tcp_probe name addr deadline) = (is_empty addr ≡ false) × (is_positive deadline ≡ true)
IsProbing (http_probe name url deadline) = (is_empty url ≡ false) × (is_positive deadline ≡ true)
IsProbing harness_probe = Unit
IsProbing (host_metrics_probe name runner) = is_set runner ≡ true
IsProbing (reachability_probe name address deadline) =
    (is_empty address ≡ false) × (is_positive deadline ≡ true)

is_set-runner_if :
    (lib : Library) (ports : Ports) (o : Option SshConfig) (r : Option Runner)
    → runner_if lib ports o ≡ good r
    → is_set r ≡ is_set o
is_set-runner_if lib ports none r h =
    transport_good (λ (x : Option Runner). is_set x ≡ false) refl h
is_set-runner_if lib ports (some c) r h =
    let a = accepted_bind _ _ h in transport_good (λ (x : Option Runner). is_set x ≡ true) refl a.2

new_prober-IsProbing :
    (runner : Option Runner) (s : ServiceConfig)
    → IsServiceSound s
    → (not (is_empty s.container) && not (is_set runner)) ≡ false
    → IsProbing (new_prober runner s)
new_prober-IsProbing runner s sound reachable = ground (arith, sound, reachable)

new_probers-IsProbing :
    (runner : Option Runner) (has_ssh : Bool) (ss : List ServiceConfig)
    → is_set runner ≡ has_ssh
    → All IsServiceSound ss
    → All (λ t. (not (is_empty t.container) && not has_ssh) ≡ false) ss
    → All IsProbing (map (new_prober runner) ss)
new_probers-IsProbing runner has_ssh [] same sound reachable = tt
new_probers-IsProbing runner has_ssh (s ∷ ss) same sound reachable = (
  new_prober-IsProbing runner s sound.0 (ground (arith, same, reachable.0)),
  new_probers-IsProbing runner has_ssh ss same sound.1 reachable.1,
)

self_prober-IsProbing : (e : Option Engine) → All IsProbing (self_prober e)
self_prober-IsProbing none = tt
self_prober-IsProbing (some e) = (tt, tt)

host_prober-IsProbing :
    (runner : Option Runner) (names : List String) (o : Option HostConfig)
    → WhenSet (IsHostWired names (is_set runner)) o
    → WhenSet IsProbing (elim o [ none ↦ none | some h ↦ some (new_host_prober runner h) ])
host_prober-IsProbing runner names none wired = tt
host_prober-IsProbing runner names (some h) wired = ground (arith, wired.reachable, wired.sound)

-- A daemon that an accepted configuration started: each prober of its services, and that of its
-- host, has a target, a runner if it probes over SSH, and a positive deadline if it dials itself.
pub daemon_probers :
    (lib : Library) (ports : Ports) (path : String) (c : Config) (d : Daemon)
    → start_daemon lib ports path ≡ good (c, d)
    → All IsProbing d.probers × WhenSet IsProbing d.host_prober
unfolding wire
daemon_probers lib ports path c d started =
    let (wired, sound) = started_daemon lib ports path c d started in
    let o = accepted_bind _ _ wired in
    let m = accepted_bind _ _ o.2 in
    let n = accepted_bind _ _ m.2 in
    let r = accepted_bind _ _ n.2 in
    let k = accepted_bind _ _ r.2 in
    let e = accepted_bind _ _ k.2 in
    let s = accepted_bind _ _ e.2 in
    let same = is_set-runner_if lib ports c.ssh r.0 r.1 in
    transport_good (λ (x : Daemon). All IsProbing x.probers × WhenSet IsProbing x.host_prober)
      (
        All-append IsProbing (map (new_prober r.0) c.services) (self_prober e.0)
            (new_probers-IsProbing r.0 (is_set c.ssh) c.services same sound.services.sound
              sound.services.reachable)
            (self_prober-IsProbing e.0),
        host_prober-IsProbing r.0 (service_names c.services) c.host (
            subst (λ b. WhenSet (IsHostWired (service_names c.services) b) c.host) (sym same)
              sound.host),
      )
      s.2
