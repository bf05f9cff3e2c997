-- ===== src/Daemon/Restarts.antt =====
-- The composition of internal/config, cmd/server-assistant/main.go, internal/harness and
-- internal/actuator: what an accepted configuration lets the harness restart.
use mathlib.Core.Path.{subst}
use server_assistant.Prelude.{
  String, concat, ◌≡◌, refl, sym, ap, true, false, Option, none, some, List, [], ◌∷◌, arith, All,
  str_eq, Bool-cases, inl, inr,
}
use server_assistant.Prelude.Dict.{Dict, lookup}
use server_assistant.Core.Harness.{HarnessMode, parse_harness_mode}
use server_assistant.Harness.{Options}
use server_assistant.Harness.Run.{run, start, Move, Event, restarted}
use server_assistant.Harness.Safety.{IsGated, IsTarget, is_live}
use server_assistant.Harness.Safety.Going.{restart_needs_approval}
use server_assistant.Config.Checked.{Checked, good, accepted_bind, accepted_guard}
use server_assistant.Config.Texts.{is_container_name}
use server_assistant.Config.Records.{SshConfig, HarnessConfig, Config}
use server_assistant.Config.Library.{Library}
use server_assistant.Config.Blocks.{contains}
use server_assistant.Config.Validate.{or_empty, service_names}
use server_assistant.Config.Sound.{transport_good}
use server_assistant.Config.Sound.Engine.{accepted_required, IsTargetSound, IsLiveSound, ModeSound}
use server_assistant.Config.Sound.Loaded.{WhenSet}
use server_assistant.Daemon.Actuator.{Actuator, new_actuator, restart_container}
use server_assistant.Daemon.Wiring.{
  Ports, Runner, runner_if, Engine, Daemon, build_engine, wire_engine, wire, start_daemon,
}
use server_assistant.Daemon.Started.{started_daemon}

-- The actuator is there, and hands the runner this one command for the container.
abbrev pub Sends : (String → Checked String) → Option Actuator → String → Type 0
Sends send none t = ⊥
Sends send (some a) t = (restart_container send a t).1 ≡ concat "docker restart " t ∷ []

-- Each restart of the log is sent.
abbrev pub AllSent : (String → Checked String) → Option Actuator → List Event → Type 0
AllSent send act [] = Unit
AllSent send act (restarted t ∷ log) = Sends send act t × AllSent send act log
AllSent send act (e ∷ log) = AllSent send act log

-- How the engine stands to the block that it was built from.
record IsBuilt (mode : HarnessMode) (h : HarnessConfig) (e : Engine) : Type 0 where
  mode_kept : e.options.mode ≡ mode
  targets : e.options.targets ≡ h.targets
  actuator :
      (w : SshConfig) → h.write_ssh ≡ some w → e.actuator ≡ some (new_actuator h.allow_restart)

runner_if_set :
    (lib : Library) (ports : Ports) (w : SshConfig) (o : Option SshConfig) (r : Option Runner)
    → o ≡ some w
    → runner_if lib ports o ≡ good r
    → (x : Runner) × (r ≡ some x)
runner_if_set lib ports w none r e h = cc
runner_if_set lib ports w (some c) r e h = let a = accepted_bind _ _ h in (a.0, cc a.2)

build_engine-IsBuilt :
    (lib : Library) (ports : Ports) (c : Config) (runner : Option Runner) (mode : HarnessMode)
    (o : Option Engine)
    → build_engine lib ports c runner mode ≡ good o
    → WhenSet (IsBuilt mode (or_empty c.harness)) o
unfolding build_engine
build_engine-IsBuilt lib ports c runner mode o h =
    let s = accepted_guard _ _ _ h in
    let w = accepted_bind _ _ s.1 in
    let r = accepted_bind _ _ w.2 in
    transport_good (WhenSet (IsBuilt mode (or_empty c.harness)))
      (record {
        mode_kept = refl;
        targets = refl;
        actuator = λ x set.
            let (y, e) = runner_if_set lib ports x (or_empty c.harness).write_ssh w.0 set w.1 in
            rw e refl;
      })
      r.2

wire_engine-IsBuilt :
    (lib : Library) (ports : Ports) (c : Config) (runner : Option Runner) (mode : HarnessMode)
    (o : Option Engine)
    → wire_engine lib ports c runner mode ≡ good o
    → WhenSet (IsBuilt mode (or_empty c.harness)) o
unfolding wire_engine
wire_engine-IsBuilt lib ports c runner HarnessMode.off o h =
    transport_good (WhenSet (IsBuilt HarnessMode.off (or_empty c.harness))) tt h
wire_engine-IsBuilt lib ports c runner HarnessMode.shadow o h =
    build_engine-IsBuilt lib ports c runner HarnessMode.shadow o h
wire_engine-IsBuilt lib ports c runner HarnessMode.live o h =
    build_engine-IsBuilt lib ports c runner HarnessMode.live o h

-- A target that is found is one of the entries.
entry_of :
    (P : String × String → Type 0) (targets : Dict String) (k t : String)
    → All P targets
    → lookup k targets ≡ some t
    → (entry : String × String) × (entry.1 ≡ t) × P entry
unfolding lookup
entry_of P [] k t all e = cc
entry_of P (entry ∷ targets) k t all e = elim (Bool-cases (str_eq entry.0 k)) [
  | inl here ↦ (entry, ground (arith, here, e), all.0)
  | inr there ↦ entry_of P targets k t all.1 (ground (arith, there, e))
]

sent_when_allowed :
    (send : String → Checked String) (allow : List String) (t : String)
    → is_container_name t ≡ true
    → contains t allow ≡ true
    → Sends send (some (new_actuator allow)) t
unfolding restart_container
sent_when_allowed send allow t safe allowed = ground (arith, safe, allowed)

module _ (send : String → Checked String) (o : Options) (names : List String) (h : HarnessConfig)
    (read_ssh : Option SshConfig) (live : IsLiveSound read_ssh h)
    (sound : All (IsTargetSound names) h.targets) (same : o.targets ≡ h.targets) where
  target_sent : (t : String) → IsTarget o t → Sends send (some (new_actuator h.allow_restart)) t
  target_sent t is =
      let found : lookup is.service h.targets ≡ some t = rw (← same) is.configured in
      let (x, at, safe) = entry_of (IsTargetSound names) h.targets is.service t sound found in
      let (y, at', allowed) =
        entry_of (λ entry. contains entry.1 h.allow_restart ≡ true) h.targets is.service t
          live.narrowed found in
      sent_when_allowed send h.allow_restart t (rw (← at) safe.1) (rw (← at') allowed)

  all_sent :
      (log : List Event) → IsGated o log → AllSent send (some (new_actuator h.allow_restart)) log
  all_sent [] g = tt
  all_sent (restarted t ∷ log) g = (target_sent t g.2, all_sent log g.3)
  all_sent (e ∷ log) g = all_sent log g

none_sent :
    (send : String → Checked String) (act : Option Actuator) (o : Options) (log : List Event)
    → is_live o.mode ≡ false
    → IsGated o log
    → AllSent send act log
none_sent send act o [] idle g = tt
none_sent send act o (restarted t ∷ log) idle g = absurd (ground (arith, idle, g.0))
none_sent send act o (e ∷ log) idle g = none_sent send act o log idle g

-- The mode decides: without live mode nothing is restarted, with it the allowlist has every target.
engine_sends :
    (send : String → Checked String) (lib : Library) (names : List String)
    (read_ssh : Option SshConfig) (mode : HarnessMode) (h : HarnessConfig) (e : Engine)
    (log : List Event)
    → IsBuilt mode h e
    → ModeSound lib.parse_url read_ssh mode h
    → All (IsTargetSound names) h.targets
    → IsGated e.options log
    → AllSent send e.actuator log
engine_sends send lib names read_ssh HarnessMode.off h e log built moded sound gated =
    none_sent send e.actuator e.options log (ap is_live built.mode_kept) gated
engine_sends send lib names read_ssh HarnessMode.shadow h e log built moded sound gated =
    none_sent send e.actuator e.options log (ap is_live built.mode_kept) gated
engine_sends send lib names read_ssh HarnessMode.live h e log built moded sound gated =
    let live = moded.1.credential in
    subst (λ act. AllSent send act log) (sym (built.actuator live.0 live.1))
      (all_sent send e.options names h read_ssh moded.1 sound built.targets log gated)

-- The engine of a wired daemon was built from the harness block, in the mode that its text names.
wire-IsBuilt :
    (lib : Library) (ports : Ports) (c : Config) (d : Daemon) (mode : HarnessMode)
    → wire lib ports c ≡ good d
    → parse_harness_mode lib.fold (or_empty c.harness).mode ≡ some mode
    → WhenSet (IsBuilt mode (or_empty c.harness)) d.engine
unfolding wire
wire-IsBuilt lib ports c d mode wired known =
    let o = accepted_bind _ _ wired in
    let m = accepted_bind _ _ o.2 in
    let n = accepted_bind _ _ m.2 in
    let r = accepted_bind _ _ n.2 in
    let k = accepted_bind _ _ r.2 in
    let e = accepted_bind _ _ k.2 in
    let s = accepted_bind _ _ e.2 in
    let required_mode = accepted_required _ _ k.1 in
    let same : k.0 ≡ mode = cc in
    transport_good (λ (x : Daemon). WhenSet (IsBuilt mode (or_empty c.harness)) x.engine)
      (wire_engine-IsBuilt lib ports c r.0 mode e.0 (rw (← same) e.1)) s.2

-- In every run of the harness of a daemon that an accepted configuration started, whatever the
-- interleaving, the Reasoner and the operators do: each call of the actuator finds an actuator, which
-- refuses neither the name nor the allowlist and hands the write runner exactly the command
-- `docker restart` with the target of the call.
pub daemon_restarts_are_sent :
    (send : String → Checked String) (lib : Library) (ports : Ports) (path : String) (c : Config)
    (d : Daemon) (e : Engine) (vs : List Move)
    → start_daemon lib ports path ≡ good (c, d)
    → d.engine ≡ some e
    → AllSent send e.actuator (run e.options vs start).log
daemon_restarts_are_sent send lib ports path c d e vs started at =
    let (wired, sound) = started_daemon lib ports path c d started in
    let (h, set, resolved) = sound.harness in
    let block : or_empty c.harness ≡ h = ap or_empty set in
    let built = wire-IsBuilt lib ports c d resolved.mode wired (rw block resolved.known) in
    engine_sends send lib (service_names c.services) c.ssh resolved.mode h e
      (run e.options vs start).log
      (subst (λ x. WhenSet (IsBuilt resolved.mode h) x) at
        (subst (λ x. WhenSet (IsBuilt resolved.mode x) d.engine) block built))
      resolved.moded resolved.targets (restart_needs_approval e.options vs)
