-- ===== src/Daemon/Wiring.antt =====
-- run of cmd/server-assistant/main.go, up to the Unraid surface: the notifier, the SSH runners, the
-- services with their probers, the harness, the monitor; and reloadKnobs.
use server_assistant.Prelude.{
  String, concat, Bool, true, false, not, Option, none, some, List, [], ◌∷◌, ◌++◌, map, leb,
  if◌then◌else◌,
}
use Prim.Native.String.{len}
use server_assistant.Prelude.Int.{ℤ, pos, to_nat}
use server_assistant.Core.Domain.{CommittedStatus}
use server_assistant.Core.Harness.{HarnessMode, parse_harness_mode, HarnessCycle}
use server_assistant.Monitor.{Service, Monitor, new_monitor, set_host, resume}
use server_assistant.Harness.{Options}
use server_assistant.Harness.Engine.{reconcile}
use server_assistant.Config.Checked.{
  text, Refusal, refused, wrapped, Checked, good, bad, ◌>>=◌, ◌>>◌, refuse_if, within,
}
use server_assistant.Config.Texts.{is_empty, seconds}
use server_assistant.Config.Records.{
  ServiceConfig, SshConfig, HostConfig, TelegramConfig, HarnessConfig, Config,
}
use server_assistant.Config.Library.{Library}
use server_assistant.Config.Blocks.{is_configured}
use server_assistant.Config.HarnessBlock.{required}
use server_assistant.Config.Validate.{is_set, or_empty}
use server_assistant.Config.Load.{load}
use server_assistant.Daemon.Actuator.{Actuator, new_actuator}

-- What `run` asks of the store, the network libraries and fmt: Open, Migrate, NewTelegram,
-- ParseAuthorizedKey, LoadCommittedStatuses, the records that Reconcile lists, whether it can save
-- one, the error if it cannot, and the verb %q.
pub record Ports : Type 0 where
  pub open_store : String → Checked (Unit {0})
  pub migrate : Checked (Unit {0})
  pub new_telegram : String → String → Checked (Unit {0})
  pub is_authorized_key : String → Bool
  pub saved : Checked (List CommittedStatus)
  pub cycles : Checked (List HarnessCycle)
  pub save_cycle : HarnessCycle → Bool
  pub save_error : Refusal
  pub quote : String → String

pub data Notifier : Type 0 where
  stub : Notifier
  telegram : String → String → Notifier

-- The connection material of a Runner; `pinned` is false where any host key is accepted.
pub record Runner : Type 0 where
  pub address : String
  pub user : String
  pub password : String
  pub private_key : String
  pub timeout : ℤ
  pub pinned : Bool

-- The prober of a subject, by the constructor of internal/prober or harness.Prober.
pub data Prober : Type 0 where
  container_probe : String → Option Runner → String → Prober
  tcp_probe : String → String → ℤ → Prober
  http_probe : String → String → ℤ → Prober
  harness_probe : Prober
  host_metrics_probe : String → Option Runner → Prober
  reachability_probe : String → String → ℤ → Prober

-- The notifier that `run` wires.
unfoldable pub new_notifier : Ports → TelegramConfig → Checked Notifier
new_notifier ports t =
    if is_configured t
    then (do ports.new_telegram t.bot_token t.chat_id; good (telegram t.bot_token t.chat_id))
    else good stub

-- The private key of a block: nothing, or the content of its file.
abbrev pub private_key : Library → SshConfig → Checked String
private_key lib c =
    if is_empty c.key_file
    then good ""
    else within (wrapped "read ssh key_file: %w" []) (lib.read_file c.key_file)

-- prober.ParseHostKey: whether the key is pinned.
abbrev pub parse_host_key : Ports → String → Checked Bool
parse_host_key ports authorized =
    if is_empty authorized
    then good false
    else if ports.is_authorized_key authorized
    then good true
    else bad (refused "ssh host_key: invalid authorized-key line" [])

-- sshRunnerFor
unfoldable pub ssh_runner_for : Library → Ports → SshConfig → Checked Runner
ssh_runner_for lib ports c = do
  key ← private_key lib c
  pinned ← parse_host_key ports c.host_key
  good (record {
    address = c.address;
    user = c.user;
    password = c.password;
    private_key = key;
    timeout = c.probe_timeout;
    pinned = pinned;
  })

-- if cfg.Block != nil { runner, err := sshRunnerFor(*cfg.Block) … }
abbrev pub runner_if : Library → Ports → Option SshConfig → Checked (Option Runner)
runner_if lib ports none = good none
runner_if lib ports (some c) = ssh_runner_for lib ports c >>= λ r. good (some r)

-- The switch over the probe kinds.
abbrev pub new_prober : Option Runner → ServiceConfig → Prober
new_prober runner s =
    if not (is_empty s.container)
    then container_probe s.name runner s.container
    else if not (is_empty s.tcp_addr)
    then tcp_probe s.name s.tcp_addr s.probe_timeout
    else http_probe s.name s.url s.probe_timeout

abbrev pub knobs_of : ServiceConfig → Service
knobs_of s = record {
  name = s.name;
  threshold = to_nat s.threshold;
  poll = to_nat s.poll;
  debounce_n = s.debounce_n;
}

-- The loops over cfg.Services in `run` and in reloadKnobs, the prober aside.
abbrev pub knobs : Config → List Service
knobs c = map knobs_of c.services

-- reloadKnobs
unfoldable pub reload_knobs : Library → String → Checked (List Service)
reload_knobs lib path = do cfg ← load lib path; good (knobs cfg)

-- harnessSecrets
abbrev pub add_secret : String → List String → List String
add_secret s out = if leb 2 (len s) then out ++ s ∷ [] else out

abbrev pub password_of : Option SshConfig → String
password_of none = ""
password_of (some c) = c.password

abbrev pub harness_secrets : Config → List String
harness_secrets c =
    let h = or_empty c.harness in
    add_secret c.telegram.bot_token (
      add_secret (password_of h.write_ssh)
        (add_secret h.reasoner.api_key (add_secret (password_of c.ssh) [])))

-- The service that the harness is on the spine.
abbrev pub harness_name : String
harness_name = "harness"

abbrev pub harness_service : Service
harness_service = record {
  name = harness_name;
  threshold = to_nat (seconds 30);
  poll = to_nat (seconds 60);
  debounce_n = pos 2;
}

-- What `run` keeps of harness.New: the options, the secrets of the Reasoner, the actuator, and the
-- configured limit of the log tool.
pub record Engine : Type 0 where
  pub options : Options
  pub secrets : List String
  pub actuator : Option Actuator
  pub writer : Option Runner
  pub log_lines : ℤ

abbrev pub tool_names : List String
tool_names = "container_status" ∷ "container_logs" ∷ "status_history" ∷ []

abbrev pub harness_options : Ports → HarnessMode → HarnessConfig → Options
harness_options ports mode h = record {
  mode = mode;
  tools = tool_names;
  targets = h.targets;
  max_tool_calls = h.ceilings.max_tool_calls;
  cooldown = to_nat h.cooldown;
  quote = ports.quote;
}

-- The identifier of the record that Reconcile tried to save last.
abbrev pub last_id : List HarnessCycle → String
last_id [] = ""
last_id (c ∷ []) = c.id
last_id (c ∷ next ∷ rest) = last_id (next ∷ rest)

abbrev pub reconcile_error : Ports → List HarnessCycle × Bool → Checked (Unit {0})
reconcile_error ports (tried, true) = good tt
reconcile_error ports (tried, false) =
    bad (wrapped "reconcile: save cycle %s: %w" (text (last_id tried) ∷ []) ports.save_error)

-- The call of Reconcile, with its errors.
unfoldable pub reconciled : Ports → Checked (Unit {0})
reconciled ports = within (wrapped "harness reconcile: %w" []) (do
  cycles ← within (wrapped "reconcile: list harness cycles: %w" []) ports.cycles
  reconcile_error ports (reconcile ports.save_cycle cycles))

-- The part of `run` that builds the harness, for a mode that is not off.
unfoldable pub build_engine :
    Library → Ports → Config → Option Runner → HarnessMode → Checked (Option Engine)
build_engine lib ports c runner mode = do
  let h = or_empty c.harness
  refuse_if (not (is_set runner))
      (refused "harness enabled but no ssh: block — the read-only Diagnosis tools need it" [])
  writer ← runner_if lib ports h.write_ssh
  reconciled ports
  good (
      some (record {
        options = harness_options ports mode h;
        secrets = harness_secrets c;
        actuator = elim writer [ none ↦ none | some w ↦ some (new_actuator h.allow_restart) ];
        writer = writer;
        log_lines = h.log_lines;
      }))

unfoldable pub wire_engine :
    Library → Ports → Config → Option Runner → HarnessMode → Checked (Option Engine)
wire_engine lib ports c runner HarnessMode.off = good none
wire_engine lib ports c runner mode = build_engine lib ports c runner mode

-- What `run` has built when it starts the goroutines; `probers` goes with the services, in order.
pub record Daemon : Type 0 where
  pub notifier : Notifier
  pub engine : Option Engine
  pub monitor : Monitor
  pub probers : List Prober
  pub host_prober : Option Prober

abbrev pub self_service : Option Engine → List Service
self_service none = []
self_service (some e) = harness_service ∷ []

abbrev pub self_prober : Option Engine → List Prober
self_prober none = []
self_prober (some e) = harness_probe ∷ []

abbrev pub new_host_prober : Option Runner → HostConfig → Prober
new_host_prober runner h =
    if h.ssh_metrics
    then host_metrics_probe h.name runner
    else reachability_probe h.name h.address h.probe_timeout

-- SetHost, if the configuration has a host.
abbrev pub attach_host : Option HostConfig → Monitor → Monitor
attach_host none m = m
attach_host (some h) m = set_host h.name (to_nat h.poll) h.debounce_n m

-- monitor.New, SetCommitSink, SetRetention and SetHost.
unfoldable pub new_spine : Config → Option Engine → Monitor
new_spine c engine = attach_host c.host (record (new_monitor (knobs c ++ self_service engine)) {
  sink = is_set engine;
  retain = c.history.window;
})

-- `run`, with its configuration loaded, up to Resume.
unfoldable pub wire : Library → Ports → Config → Checked Daemon
wire lib ports c = do
  ports.open_store c.database_path
  ports.migrate
  notifier ← new_notifier ports c.telegram
  runner ← runner_if lib ports c.ssh
  mode ←
      required (parse_harness_mode lib.fold (or_empty c.harness).mode)
        (refused (concat "unknown harness mode " (or_empty c.harness).mode) [])
  engine ← wire_engine lib ports c runner mode
  saved ← ports.saved
  good (record {
    notifier = notifier;
    engine = engine;
    monitor = resume saved (new_spine c engine);
    probers = map (new_prober runner) c.services ++ self_prober engine;
    host_prober = elim c.host [ none ↦ none | some h ↦ some (new_host_prober runner h) ];
  })

-- `run` from its start.
unfoldable pub start_daemon : Library → Ports → String → Checked (Config × Daemon)
start_daemon lib ports path = do cfg ← load lib path; d ← wire lib ports cfg; good (cfg, d)
