-- ===== src/Config/Subjects.antt =====
-- The resolve methods of the blocks ssh, services and host (internal/config/config.go): each
-- checks a block, parses its durations and fills what is left out.
use server_assistant.Prelude.{ℕ, String, Bool, not, ◌&&◌, ◌+◌, [], ◌∷◌, ◌==◌, if◌then◌else◌}
use server_assistant.Prelude.Int.{ℤ, pos, int_eq, is_positive}
use server_assistant.Config.Checked.{
  number, refused, wrapped, Checked, good, ◌>>=◌, ◌>>◌, refuse_if, within,
}
use server_assistant.Config.Texts.{
  is_empty, check_dashboard_safe_name, parse_duration_default, seconds,
}
use server_assistant.Config.Records.{ServiceConfig, SshConfig, HostConfig}

-- if n == 0 { n = 3 }
abbrev pub or_default : ℤ → ℤ → ℤ
or_default n default = if int_eq n (pos 0) then default else n

abbrev pub one_if : Bool → ℕ
one_if set = if set then 1 else 0

-- The variable `kinds` of ServiceConfig.resolve.
abbrev pub probe_kinds : ServiceConfig → ℕ
probe_kinds s =
    one_if (not (is_empty s.url))
    + (one_if (not (is_empty s.tcp_addr)) + one_if (not (is_empty s.container)))

module _ (parse : String → Checked ℤ) where
  -- ServiceConfig.resolve
  unfoldable pub resolve_service : ServiceConfig → Checked ServiceConfig
  resolve_service s = do
    refuse_if (is_empty s.name) (refused "name is required" [])
    check_dashboard_safe_name s.name
    refuse_if (not (probe_kinds s == 1))
        (refused "exactly one of url, tcp or container is required" [])
    poll ←
        within (wrapped "poll_interval: %w" [])
          (parse_duration_default parse s.poll_interval (seconds 30))
    probe_timeout ←
        within (wrapped "timeout: %w" []) (parse_duration_default parse s.timeout (seconds 10))
    threshold ←
        within (wrapped "latency_threshold: %w" [])
          (parse_duration_default parse s.latency_threshold (seconds 1))
    let debounce_n = or_default s.debounce_n (pos 3)
    refuse_if (not (is_positive debounce_n))
        (refused "debounce_n must be >= 1, got %d" (number debounce_n ∷ []))
    good (record s {
      poll = poll;
      probe_timeout = probe_timeout;
      threshold = threshold;
      debounce_n = debounce_n;
    })

  -- SSHConfig.resolve
  unfoldable pub resolve_ssh : SshConfig → Checked SshConfig
  resolve_ssh s = do
    refuse_if (is_empty s.address) (refused "ssh: address is required" [])
    refuse_if (is_empty s.user) (refused "ssh: user is required" [])
    refuse_if (is_empty s.password && is_empty s.key_file)
        (refused "ssh: password or key_file is required" [])
    probe_timeout ←
        within (wrapped "ssh timeout: %w" []) (parse_duration_default parse s.timeout (seconds 10))
    good (record s { probe_timeout = probe_timeout })

  -- HostConfig.resolve
  unfoldable pub resolve_host : HostConfig → Checked HostConfig
  resolve_host h = do
    refuse_if (is_empty h.name) (refused "host: name is required" [])
    within (wrapped "host: %w" []) (check_dashboard_safe_name h.name)
    refuse_if (is_empty h.address) (refused "host: address is required" [])
    poll ←
        within (wrapped "host poll_interval: %w" [])
          (parse_duration_default parse h.poll_interval (seconds 30))
    probe_timeout ←
        within (wrapped "host timeout: %w" []) (parse_duration_default parse h.timeout (seconds 5))
    let debounce_n = or_default h.debounce_n (pos 3)
    refuse_if (not (is_positive debounce_n))
        (refused "host debounce_n must be >= 1, got %d" (number debounce_n ∷ []))
    good (record h { poll = poll; probe_timeout = probe_timeout; debounce_n = debounce_n })
