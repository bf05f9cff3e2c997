-- ===== src/Config/Blocks.antt =====
-- The resolve methods of the blocks sampler, unraid, scripts and commands (internal/config), and
-- the checks of telegram and history that validate makes in place.
use server_assistant.Prelude.{
  String, Bool, true, false, not, List, [], ◌∷◌, ◌++◌, ◌*◌, any, str_eq, if◌then◌else◌,
}
use server_assistant.Prelude.Int.{ℤ, is_negative}
use server_assistant.Config.Checked.{
  text, refused, wrapped, Checked, good, ◌>>=◌, ◌>>◌, refuse_if, within,
}
use server_assistant.Config.Texts.{
  is_empty, is_container_name, parse_duration_default, milliseconds, seconds, minutes, hours,
}
use server_assistant.Config.Records.{
  TelegramConfig, HistoryConfig, SamplerConfig, UnraidConfig, ScriptsConfig, CommandsConfig,
}

-- if s == "" { s = default }
abbrev pub or_text : String → String → String
or_text s default = if is_empty s then default else s

abbrev pub contains : String → List String → Bool
contains name = any (λ other. str_eq other name)

abbrev pub differ : Bool → Bool → Bool
differ true b = not b
differ false b = b

-- The check of the telegram block in validate.
abbrev pub check_telegram : TelegramConfig → Checked (Unit {0})
check_telegram t =
    refuse_if (differ (is_empty t.bot_token) (is_empty t.chat_id))
      (refused "telegram: bot_token and chat_id must both be set or both omitted" [])

-- TelegramConfig.Configured
abbrev pub is_configured : TelegramConfig → Bool
is_configured t = if is_empty t.bot_token then false else not (is_empty t.chat_id)

-- The loop of CommandsConfig.resolve: `seen` and `deduped` hold the same names.
unfoldable pub dedup_names : List String → List String → Checked (List String)
dedup_names deduped [] = good deduped
dedup_names deduped (name ∷ rest) = do
  refuse_if (not (is_container_name name))
      (refused "commands.allow_restart: invalid container name %q" (text name ∷ []))
  dedup_names (if contains name deduped then deduped else deduped ++ name ∷ []) rest

-- ScriptsConfig.ProtectedFSPaths
abbrev pub protected_fs_paths : ScriptsConfig → List String
protected_fs_paths s = elim s.protected_paths [ [] ↦ "/boot" ∷ [] | path ∷ rest ↦ path ∷ rest ]

module _ (parse : String → Checked ℤ) where
  abbrev duration : String → String → ℤ → Checked ℤ
  duration frame v default = within (wrapped frame []) (parse_duration_default parse v default)

  -- The part of validate for the history block.
  unfoldable pub resolve_history : HistoryConfig → Checked HistoryConfig
  resolve_history h = if is_empty h.window_str then good (record h { window = hours 24 }) else (do
    d ← within (wrapped "history window: %w" []) (parse h.window_str)
    refuse_if (is_negative d)
        (refused "history window: must not be negative, got %s" (text h.window_str ∷ []))
    good (record h { window = d }))

  -- SamplerConfig.resolve
  unfoldable pub resolve_sampler : SamplerConfig → Checked SamplerConfig
  resolve_sampler s = do
    interval ← duration "sampler interval: %w" s.interval_str (minutes 15)
    retention ← duration "sampler retention: %w" s.retention_str (hours (90 * 24))
    good (record s { interval = interval; retention = retention })

  -- UnraidConfig.resolve
  unfoldable pub resolve_unraid : UnraidConfig → Checked UnraidConfig
  resolve_unraid u = do
    graphql ← duration "unraid graphql_timeout: %w" u.graphql_timeout_str (seconds 10)
    emhttp ← duration "unraid emhttp_timeout: %w" u.emhttp_timeout_str (seconds 2)
    smart ← duration "unraid smart_timeout: %w" u.smart_timeout_str (seconds 15)
    docker ← duration "unraid docker_timeout: %w" u.docker_timeout_str (seconds 5)
    reachability ← duration "unraid reachability_timeout: %w" u.reachability_timeout_str (seconds 5)
    cpu ← duration "unraid cpu_sample_interval: %w" u.cpu_sample_interval_str (milliseconds 250)
    good (record u {
      graphql_url = or_text u.graphql_url "http://127.0.0.1/graphql";
      smartctl_path = or_text u.smartctl_path "smartctl";
      docker_socket = or_text u.docker_socket "/var/run/docker.sock";
      tailscale_path = or_text u.tailscale_path "tailscale";
      host_proc_path = or_text u.host_proc_path "/host/proc";
      graphql_timeout = graphql;
      emhttp_timeout = emhttp;
      smart_timeout = smart;
      docker_timeout = docker;
      reachability_timeout = reachability;
      cpu_sample_interval = cpu;
    })

  -- ScriptsConfig.resolve
  unfoldable pub resolve_scripts : ScriptsConfig → Checked ScriptsConfig
  resolve_scripts s = do
    dry_run ← duration "scripts.dry_run_timeout: %w" s.dry_run_timeout_str (seconds 15)
    run ← duration "scripts.run_timeout: %w" s.run_timeout_str (minutes 5)
    session ← duration "scripts.session_grant_ttl: %w" s.session_grant_ttl_str (hours 4)
    standing ← duration "scripts.standing_grant_ttl: %w" s.standing_grant_ttl_str (hours (90 * 24))
    good (record s {
      dry_run_timeout = dry_run;
      run_timeout = run;
      session_grant_ttl = session;
      standing_grant_ttl = standing;
    })

  -- CommandsConfig.resolve
  unfoldable pub resolve_commands : CommandsConfig → Checked CommandsConfig
  resolve_commands c = do
    timeout ← duration "commands.timeout: %w" c.timeout_str (seconds 30)
    deduped ← dedup_names [] c.allow_restart
    good (record c { timeout = timeout; allow_restart = deduped })
