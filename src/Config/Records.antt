-- ===== src/Config/Records.antt =====
-- The records of internal/config. A duration is a count of nanoseconds; the fields that `resolve`
-- fills (poll, probe_timeout and the like) stand beside the texts that it parses. A pointer to a
-- block is an Option.
use server_assistant.Prelude.{String, Bool, Option, List}
use server_assistant.Prelude.Int.{ℤ}
use server_assistant.Prelude.Dict.{Dict}

pub record ServiceConfig : Type 0 where
  pub name : String
  pub url : String
  pub tcp_addr : String
  pub container : String
  pub poll_interval : String
  pub timeout : String
  pub latency_threshold : String
  pub debounce_n : ℤ
  pub poll : ℤ
  pub probe_timeout : ℤ
  pub threshold : ℤ

pub record SshConfig : Type 0 where
  pub address : String
  pub user : String
  pub password : String
  pub key_file : String
  pub host_key : String
  pub timeout : String
  pub probe_timeout : ℤ

pub record HostConfig : Type 0 where
  pub name : String
  pub address : String
  pub poll_interval : String
  pub timeout : String
  pub debounce_n : ℤ
  pub ssh_metrics : Bool
  pub poll : ℤ
  pub probe_timeout : ℤ

pub record TelegramConfig : Type 0 where
  pub bot_token : String
  pub chat_id : String

pub record HistoryConfig : Type 0 where
  pub window_str : String
  pub window : ℤ

pub record ReasonerConfig : Type 0 where
  pub base_url : String
  pub model : String
  pub api_key : String
  pub timeout : ℤ
  pub cloud : Bool

pub record Ceilings : Type 0 where
  pub max_tool_calls : ℤ
  pub wall_clock : ℤ

-- The block `harness`. `targets` lists the entries of the map in the order in which Go visits
-- them, which Go leaves open.
pub record HarnessConfig : Type 0 where
  pub mode : String
  pub reasoner : ReasonerConfig
  pub ceilings : Ceilings
  pub approval_timeout : ℤ
  pub cooldown : ℤ
  pub outcome_window : ℤ
  pub targets : Dict String
  pub allow_restart : List String
  pub log_lines : ℤ
  pub write_ssh : Option SshConfig

pub record SamplerConfig : Type 0 where
  pub interval_str : String
  pub retention_str : String
  pub interval : ℤ
  pub retention : ℤ

pub record UnraidConfig : Type 0 where
  pub graphql_url : String
  pub api_key : String
  pub smartctl_path : String
  pub docker_socket : String
  pub tailscale_path : String
  pub host_proc_path : String
  pub graphql_timeout_str : String
  pub emhttp_timeout_str : String
  pub smart_timeout_str : String
  pub docker_timeout_str : String
  pub reachability_timeout_str : String
  pub cpu_sample_interval_str : String
  pub graphql_timeout : ℤ
  pub emhttp_timeout : ℤ
  pub smart_timeout : ℤ
  pub docker_timeout : ℤ
  pub reachability_timeout : ℤ
  pub cpu_sample_interval : ℤ

pub record McpConfig : Type 0 where
  pub dashboard_base_url : String
  pub auth_token : String

pub record ScriptsConfig : Type 0 where
  pub dry_run_timeout_str : String
  pub run_timeout_str : String
  pub session_grant_ttl_str : String
  pub standing_grant_ttl_str : String
  pub protected_paths : List String
  pub dry_run_timeout : ℤ
  pub run_timeout : ℤ
  pub session_grant_ttl : ℤ
  pub standing_grant_ttl : ℤ

pub record CommandsConfig : Type 0 where
  pub allow_restart : List String
  pub timeout_str : String
  pub timeout : ℤ

-- `database_path` is the only field of the block `database`.
pub record Config : Type 0 where
  pub schema_version : ℤ
  pub http_addr : String
  pub database_path : String
  pub services : List ServiceConfig
  pub telegram : TelegramConfig
  pub host : Option HostConfig
  pub ssh : Option SshConfig
  pub history : HistoryConfig
  pub harness : Option HarnessConfig
  pub sampler : SamplerConfig
  pub unraid : Option UnraidConfig
  pub mcp : McpConfig
  pub scripts : ScriptsConfig
  pub commands : CommandsConfig

-- What url.Parse returns, as far as it is read: IsAbs, Host, Scheme and Hostname.
pub record Url : Type 0 where
  pub is_abs : Bool
  pub host : String
  pub scheme : String
  pub hostname : String
