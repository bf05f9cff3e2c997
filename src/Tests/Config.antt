-- ===== src/Tests/Config.antt =====
-- Concrete runs of internal/config and of cmd/server-assistant/main.go.
use server_assistant.Prelude.{
  ◌≡◌, refl, String, true, false, ◌⊎◌, Option, none, some, List, [], ◌∷◌, str_eq, if◌then◌else◌,
  arith,
}
use server_assistant.Prelude.Int.{ℤ, pos}
use server_assistant.Core.Harness.{parse_harness_mode}
use server_assistant.Config.Checked.{
  text, refused, foreign, Checked, good, bad, ◌>>=◌, refuse_if, within,
}
use server_assistant.Config.Texts.{parse_duration_default, seconds, minutes, hours}
use server_assistant.Config.Records.{
  ServiceConfig, SshConfig, HostConfig, HarnessConfig, Config, Url,
}
use server_assistant.Config.Library.{Library}
use server_assistant.Config.Subjects.{resolve_service, resolve_ssh, resolve_host}
use server_assistant.Config.Blocks.{
  dedup_names, resolve_history, resolve_sampler, resolve_scripts, resolve_commands,
}
use server_assistant.Config.HarnessBlock.{
  check_bounds, check_targets, check_allow_restart, check_allowed, check_reasoner, check_live,
  check_mode, resolve_harness,
}
use server_assistant.Config.Validate.{resolve_services, check_host, validate}
use server_assistant.Config.Secrets.{
  expand, expand_services, expand_host, expand_ssh, expand_harness, expand_config, resolve_secrets,
}
use server_assistant.Config.Secrets.Missing.{
  any_unset, expanded_fields, IsReport, resolve_secrets_lem,
}
use server_assistant.Config.Load.{load}
use server_assistant.Config.Order.{SameEntries, resolve_harness_order}
use server_assistant.Config.Sound.Loaded.{IsSound, load-IsSound}

abbrev pub ssh_block : String → SshConfig
ssh_block user = record {
  address = "tower:22";
  user = user;
  password = "${TOKEN}";
  key_file = "";
  host_key = "ssh-ed25519 AAAAC3Nz";
  timeout = "";
  probe_timeout = pos 0;
}

abbrev pub plex : ServiceConfig
plex = record {
  name = "plex";
  url = "";
  tcp_addr = "";
  container = "plex-1";
  poll_interval = "5s";
  timeout = "";
  latency_threshold = "";
  debounce_n = pos 0;
  poll = pos 0;
  probe_timeout = pos 0;
  threshold = pos 0;
}

abbrev pub tower : HostConfig
tower = record {
  name = "tower";
  address = "tower:22";
  poll_interval = "";
  timeout = "";
  debounce_n = pos 2;
  ssh_metrics = true;
  poll = pos 0;
  probe_timeout = pos 0;
}

abbrev pub live_block : HarnessConfig
live_block = record {
  mode = "live";
  reasoner = record {
    base_url = "http://127.0.0.1:11434/v1";
    model = "qwen";
    api_key = "";
    timeout = pos 0;
    cloud = false;
  };
  ceilings = record { max_tool_calls = pos 0; wall_clock = pos 0 };
  approval_timeout = pos 0;
  cooldown = pos 0;
  outcome_window = pos 0;
  targets = ("plex", "plex-1") ∷ [];
  allow_restart = "plex-1" ∷ [];
  log_lines = pos 0;
  write_ssh = some (ssh_block "writer");
}

abbrev pub file : Config
file = record {
  schema_version = pos 1;
  http_addr = "";
  database_path = "";
  services = plex ∷ [];
  telegram = record { bot_token = ""; chat_id = "" };
  host = some tower;
  ssh = some (ssh_block "reader");
  history = record { window_str = ""; window = pos 0 };
  harness = some live_block;
  sampler = record { interval_str = ""; retention_str = ""; interval = pos 0; retention = pos 0 };
  unraid = none;
  mcp = record { dashboard_base_url = ""; auth_token = "" };
  scripts = record {
    dry_run_timeout_str = "";
    run_timeout_str = "";
    session_grant_ttl_str = "";
    standing_grant_ttl_str = "";
    protected_paths = [];
    dry_run_timeout = pos 0;
    run_timeout = pos 0;
    session_grant_ttl = pos 0;
    standing_grant_ttl = pos 0;
  };
  commands = record { allow_restart = "plex-1" ∷ "plex-1" ∷ []; timeout_str = ""; timeout = pos 0 };
}

abbrev pub parse : String → Checked ℤ
parse s = if str_eq s "5s" then good (pos 5000000000) else bad (foreign "invalid duration")

abbrev pub parse_url : String → Option Url
parse_url s =
    some
      (record { is_abs = true; host = "127.0.0.1:11434"; scheme = "http"; hostname = "127.0.0.1" })

-- The environment sets TOKEN alone.
abbrev pub library : Library
library = record {
  parse_duration = parse;
  parse_url = parse_url;
  fold = λ s. s;
  read_file = λ path. good "the file";
  unmarshal = λ raw. good file;
  lookup_env = λ key. if str_eq key "TOKEN" then some "secret" else none;
  references = λ s.
      if str_eq s "${TOKEN}" then "TOKEN" ∷ [] else if str_eq s "${HOME}" then "HOME" ∷ [] else [];
  expand = λ f s. if str_eq s "${TOKEN}" then f "TOKEN" else s;
  sorted = λ keys. keys;
}

abbrev pub taken {ℓ} : {A : Type ℓ} → A → Checked A → A
taken a (good b) = b
taken a (bad why) = a

-- What Load makes of the file.
abbrev pub loaded_ssh : String → SshConfig
loaded_ssh user = record (ssh_block user) { password = "secret"; probe_timeout = seconds 10 }

abbrev pub loaded : Config
loaded = record file {
  http_addr = ":8080";
  database_path = "server-assistant.db";
  services =
      record plex {
        debounce_n = pos 3;
        poll = seconds 5;
        probe_timeout = seconds 10;
        threshold = seconds 1;
      }
      ∷ [];
  host = some (record tower { poll = seconds 30; probe_timeout = seconds 5 });
  ssh = some (loaded_ssh "reader");
  history = record { window_str = ""; window = hours 24 };
  harness = some (record live_block {
    reasoner = record live_block.reasoner { timeout = seconds 60 };
    ceilings = record { max_tool_calls = pos 4; wall_clock = seconds 120 };
    approval_timeout = minutes 10;
    cooldown = minutes 15;
    outcome_window = minutes 3;
    log_lines = pos 50;
    write_ssh = some (loaded_ssh "writer");
  });
  sampler = record file.sampler { interval = minutes 15; retention = hours 2160 };
  scripts = record file.scripts {
    dry_run_timeout = seconds 15;
    run_timeout = minutes 5;
    session_grant_ttl = hours 4;
    standing_grant_ttl = hours 2160;
  };
  commands = record file.commands { allow_restart = "plex-1" ∷ []; timeout = seconds 30 };
}

pub loads : load library "config.yaml" ≡ good loaded
unfolding load resolve_secrets expand_config expand expand_services expand_host expand_ssh
    expand_harness validate resolve_services resolve_service resolve_ssh check_host resolve_host
    resolve_harness parse_harness_mode check_bounds check_targets check_allow_restart check_allowed
    check_reasoner check_live check_mode resolve_history resolve_sampler resolve_scripts
    resolve_commands dedup_names parse_duration_default ◌>>=◌ refuse_if within
loads = refl

load-IsSound_example : IsSound library loaded
load-IsSound_example = load-IsSound library "config.yaml" loaded loads

-- Two targets, in both orders.
abbrev two_targets : HarnessConfig
two_targets = record live_block {
  mode = "shadow";
  targets = ("plex", "plex-1") ∷ ("web", "web-1") ∷ [];
}

abbrev names : List String
names = "plex" ∷ "web" ∷ []

abbrev resolved_two : HarnessConfig
resolved_two = taken two_targets (resolve_harness (λ s. s) parse parse_url names none two_targets)

resolves_two : resolve_harness (λ s. s) parse parse_url names none two_targets ≡ good resolved_two
unfolding resolve_harness parse_harness_mode check_bounds check_targets check_allow_restart
    check_reasoner check_mode ◌>>=◌ refuse_if within
resolves_two = refl

swapped : SameEntries two_targets.targets (("web", "web-1") ∷ ("plex", "plex-1") ∷ [])
swapped test = ground arith

resolve_harness_order_example :
    resolve_harness
      (λ s. s)
      parse
      parse_url
      names
      none
      (record two_targets { targets = ("web", "web-1") ∷ ("plex", "plex-1") ∷ [] })
    ≡ good (record resolved_two { targets = ("web", "web-1") ∷ ("plex", "plex-1") ∷ [] })
resolve_harness_order_example =
    resolve_harness_order (λ s. s) parse parse_url names none two_targets resolved_two
      (("web", "web-1") ∷ ("plex", "plex-1") ∷ []) swapped resolves_two

-- One field refers to a variable that is not set.
abbrev without_home : Config
without_home = record file { database_path = "${HOME}" }

names_home :
    resolve_secrets library without_home
    ≡ bad (refused "config references unset environment variables: %s" (text "HOME" ∷ []))
unfolding resolve_secrets expand_config expand expand_services expand_host expand_ssh expand_harness
names_home = refl

resolve_secrets_lem_example :
    ((any_unset library (expanded_fields without_home) ≡ false)
      × (resolve_secrets library without_home ≡ good (expand_config library without_home []).0))
    ⊎ ((any_unset library (expanded_fields without_home) ≡ true)
        × IsReport library (expanded_fields without_home) (resolve_secrets library without_home))
resolve_secrets_lem_example = resolve_secrets_lem library without_home
