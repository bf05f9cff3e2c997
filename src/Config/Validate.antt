-- ===== src/Config/Validate.antt =====
-- Config.validate of internal/config/config.go: the checks of all blocks, in their order.
use server_assistant.Prelude.{
  String, Bool, true, false, not, ◌&&◌, Option, none, some, List, [], ◌∷◌, map,
}
use server_assistant.Prelude.Int.{ℤ, pos, int_eq}
use server_assistant.Config.Checked.{
  text, number, refused, wrapped, Checked, good, ◌>>=◌, ◌>>◌, refuse_if, within,
}
use server_assistant.Config.Texts.{is_empty}
use server_assistant.Config.Records.{ServiceConfig, HostConfig, HarnessConfig, Config}
use server_assistant.Config.Library.{Library}
use server_assistant.Config.Subjects.{resolve_service, resolve_ssh, resolve_host}
use server_assistant.Config.Blocks.{
  or_text, contains, check_telegram, resolve_history, resolve_sampler, resolve_unraid,
  resolve_scripts, resolve_commands,
}
use server_assistant.Config.HarnessBlock.{resolve_harness}

abbrev pub supported_schema_version : ℤ
supported_schema_version = pos 1

abbrev pub is_set {ℓ} : {A : Type ℓ} → Option A → Bool
is_set none = false
is_set (some a) = true

-- if c.Block != nil { … }
abbrev pub if_present {ℓ} : {A : Type ℓ} → (A → Checked A) → Option A → Checked (Option A)
if_present resolve none = good none
if_present resolve (some a) = resolve a >>= λ b. good (some b)

-- The loop over the services; `seen` holds the names of those before.
unfoldable pub resolve_services :
    (String → Checked ℤ) → Bool → List String → List ServiceConfig → Checked (List ServiceConfig)
resolve_services parse has_ssh seen [] = good []
resolve_services parse has_ssh seen (s ∷ rest) = do
  t ← within (wrapped "service %q: %w" (text s.name ∷ [])) (resolve_service parse s)
  refuse_if (not (is_empty t.container) && not has_ssh)
      (refused "service %q: container probe requires an ssh block" (text t.name ∷ []))
  refuse_if (contains t.name seen) (refused "duplicate service name %q" (text t.name ∷ []))
  others ← resolve_services parse has_ssh (t.name ∷ seen) rest
  good (t ∷ others)

-- The part of validate for the host.
unfoldable pub check_host :
    (String → Checked ℤ) → List String → Bool → HostConfig → Checked HostConfig
check_host parse names has_ssh host = do
  h ← resolve_host parse host
  refuse_if (contains h.name names)
      (refused "host name %q collides with a service of the same name" (text h.name ∷ []))
  refuse_if (h.ssh_metrics && not has_ssh) (refused "host ssh_metrics requires an ssh block" [])
  good h

-- &Harness{}
abbrev pub empty_harness : HarnessConfig
empty_harness = record {
  mode = "";
  reasoner = record { base_url = ""; model = ""; api_key = ""; timeout = pos 0; cloud = false };
  ceilings = record { max_tool_calls = pos 0; wall_clock = pos 0 };
  approval_timeout = pos 0;
  cooldown = pos 0;
  outcome_window = pos 0;
  targets = [];
  allow_restart = [];
  log_lines = pos 0;
  write_ssh = none;
}

abbrev pub or_empty : Option HarnessConfig → HarnessConfig
or_empty none = empty_harness
or_empty (some h) = h

abbrev pub service_names : List ServiceConfig → List String
service_names = map (λ s. s.name)

unfoldable pub validate : Library → Config → Checked Config
validate lib c = do
  refuse_if (int_eq c.schema_version (pos 0)) (refused "schema_version is required" [])
  refuse_if (not (int_eq c.schema_version supported_schema_version)) (
      refused "unsupported schema_version %d (this build supports %d)"
        (number c.schema_version ∷ number supported_schema_version ∷ []))
  ssh ← if_present (resolve_ssh lib.parse_duration) c.ssh
  services ← resolve_services lib.parse_duration (is_set ssh) [] c.services
  let names = service_names services
  harness ← resolve_harness lib.fold lib.parse_duration lib.parse_url names ssh (or_empty c.harness)
  host ← if_present (check_host lib.parse_duration names (is_set ssh)) c.host
  check_telegram c.telegram
  history ← resolve_history lib.parse_duration c.history
  sampler ← resolve_sampler lib.parse_duration c.sampler
  unraid ← if_present (resolve_unraid lib.parse_duration) c.unraid
  scripts ← resolve_scripts lib.parse_duration c.scripts
  commands ← resolve_commands lib.parse_duration c.commands
  good (record c {
    http_addr = or_text c.http_addr ":8080";
    database_path = or_text c.database_path "server-assistant.db";
    ssh = ssh;
    services = services;
    harness = some harness;
    host = host;
    history = history;
    sampler = sampler;
    unraid = unraid;
    scripts = scripts;
    commands = commands;
  })
