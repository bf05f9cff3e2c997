-- ===== src/Tests/Daemon.antt =====
-- Concrete runs of cmd/server-assistant/main.go with the parts that it wires.
use server_assistant.Prelude.{◌≡◌, refl, true, inl, none, some, List, [], ◌∷◌, All, str_eq}
use server_assistant.Prelude.Int.{pos}
use server_assistant.Core.Domain.{down}
use server_assistant.Core.Harness.{HarnessMode, parse_harness_mode}
use server_assistant.Monitor.{new_monitor, set_host, resume}
use server_assistant.Monitor.Gate.{Tick, host_tick, service_tick, IsGated}
use server_assistant.Monitor.Gate
use server_assistant.Harness.Engine.{reconcile}
use server_assistant.Harness.Run.{start, Move, commit}
use server_assistant.Harness.Run
use server_assistant.Config.Checked.{foreign, good, ◌>>=◌, refuse_if, within, then_good}
use server_assistant.Config.Validate.{empty_harness}
use server_assistant.Config.Sound.Loaded.{WhenSet}
use server_assistant.Daemon.Wiring.{
  Ports, stub, Engine, Daemon, harness_options, new_notifier, ssh_runner_for, reconciled,
  build_engine, wire_engine, new_spine, wire, start_daemon,
}
use server_assistant.Daemon.Gate.{daemon_keeps_gate}
use server_assistant.Daemon.Restarts.{AllSent, daemon_restarts_are_sent}
use server_assistant.Daemon.Probers.{IsProbing, daemon_probers}
use server_assistant.Daemon.Starts.{IsReady, daemon_starts}
use server_assistant.Tests.Engine.{moves}
use server_assistant.Tests.Config.{library, loaded, loads, taken}

-- The store has saved nothing yet, and every call succeeds.
abbrev ports : Ports
ports = record {
  open_store = λ path. good tt;
  migrate = good tt;
  new_telegram = λ token chat. good tt;
  is_authorized_key = λ key. str_eq key "ssh-ed25519 AAAAC3Nz";
  saved = good [];
  cycles = good [];
  save_cycle = λ c. true;
  save_error = foreign "disk full";
  quote = λ s. s;
}

abbrev no_daemon : Daemon
no_daemon = record {
  notifier = stub;
  engine = none;
  monitor = new_monitor [];
  probers = [];
  host_prober = none;
}

abbrev daemon : Daemon
daemon = taken no_daemon (wire library ports loaded)

wires : wire library ports loaded ≡ good daemon
unfolding wire new_notifier ssh_runner_for wire_engine build_engine reconciled reconcile
    parse_harness_mode ◌>>=◌ refuse_if within
wires = refl

started : start_daemon library ports "config.yaml" ≡ good (loaded, daemon)
unfolding start_daemon
started = then_good _ loads (then_good _ wires refl)

abbrev no_engine : Engine
no_engine = record {
  options = harness_options ports HarnessMode.off empty_harness;
  secrets = [];
  actuator = none;
  writer = none;
  log_lines = pos 0;
}

abbrev engine : Engine
engine = elim daemon.engine [ some e ↦ e | none ↦ no_engine ]

-- An unreachable host, then two looks at the service.
abbrev ticks : List Tick
ticks =
    host_tick
      (record { now = 10; probe = some (record { status = down; latency = 0 }); save_ok = true })
    ∷ host_tick
        (record { now = 20; probe = some (record { status = down; latency = 0 }); save_ok = true })
    ∷ service_tick (record { now = 30; probe = none; save_ok = true }) 0
    ∷ []

daemon_keeps_gate_example : IsGated (Gate.run ticks daemon.monitor).0
unfolding wire new_notifier ssh_runner_for wire_engine build_engine reconciled reconcile
    parse_harness_mode ◌>>=◌ refuse_if within new_spine new_monitor set_host resume
daemon_keeps_gate_example =
    daemon_keeps_gate library ports "config.yaml" loaded daemon ticks started refl refl

daemon_restarts_are_sent_example :
    AllSent (λ cmd. good "") engine.actuator (Run.run engine.options moves start).log
unfolding wire new_notifier ssh_runner_for wire_engine build_engine reconciled reconcile
    parse_harness_mode ◌>>=◌ refuse_if within
daemon_restarts_are_sent_example =
    daemon_restarts_are_sent (λ cmd. good "") library ports "config.yaml" loaded daemon engine moves
      started refl

daemon_probers_example : All IsProbing daemon.probers × WhenSet IsProbing daemon.host_prober
daemon_probers_example = daemon_probers library ports "config.yaml" loaded daemon started

ready : IsReady library ports loaded
ready = record {
  opened = refl;
  migrated = refl;
  telegram = λ e. refl;
  reads = record { host_key = λ e. refl; key_file = λ e. ("the file", refl) };
  writes = record { host_key = λ e. refl; key_file = λ e. ("the file", refl) };
  statuses = ([], refl);
  listed = ([], refl);
  saves = λ c. refl;
}

daemon_starts_example : (d : Daemon) × (start_daemon library ports "config.yaml" ≡ good (loaded, d))
daemon_starts_example = daemon_starts library ports loaded ready "config.yaml" loads (inl refl)
