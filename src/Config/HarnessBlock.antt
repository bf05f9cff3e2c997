-- ===== src/Config/HarnessBlock.antt =====
-- Harness.resolve of internal/config/config.go, in the order of its checks: the mode, the
-- defaults, the bounds, the targets; then for a mode that is not off the Reasoner and its egress
-- gate; then for live mode the allowlist and the write credential.
use server_assistant.Prelude.{
  String, concat, Bool, false, not, ◌&&◌, ◌||◌, Option, none, some, List, [], ◌∷◌, str_eq,
}
use server_assistant.Prelude.Int.{ℤ, pos, is_positive, is_below, is_above}
use server_assistant.Prelude.Dict.{Dict}
use server_assistant.Core.Harness.{HarnessMode, parse_harness_mode}
use server_assistant.Config.Checked.{
  text, number, Refusal, refused, wrapped, Checked, good, bad, ◌>>=◌, ◌>>◌, refuse_if, within,
}
use server_assistant.Config.Texts.{is_empty, is_container_name, is_loopback_host, seconds, minutes}
use server_assistant.Config.Records.{SshConfig, HarnessConfig, Url}
use server_assistant.Config.Subjects.{or_default, resolve_ssh}
use server_assistant.Config.Blocks.{contains}

-- The lines that fill what the block leaves out.
abbrev pub harness_defaults : HarnessConfig → HarnessConfig
harness_defaults h = record h {
  reasoner = record h.reasoner { timeout = or_default h.reasoner.timeout (seconds 60) };
  ceilings = record h.ceilings {
    max_tool_calls = or_default h.ceilings.max_tool_calls (pos 4);
    wall_clock = or_default h.ceilings.wall_clock (seconds 120);
  };
  approval_timeout = or_default h.approval_timeout (minutes 10);
  cooldown = or_default h.cooldown (minutes 15);
  outcome_window = or_default h.outcome_window (minutes 3);
  log_lines = or_default h.log_lines (pos 50);
}

-- if d <= 0 { return fmt.Errorf(frame, d) }
abbrev refuse_idle : String → ℤ → Checked (Unit {0})
refuse_idle frame d = refuse_if (not (is_positive d)) (refused frame (number d ∷ []))

unfoldable pub check_bounds : HarnessConfig → Checked (Unit {0})
check_bounds h = do
  refuse_if (is_below h.ceilings.max_tool_calls 1 || is_above h.ceilings.max_tool_calls 20) (
      refused "harness: ceilings.max_tool_calls must be 1..20, got %d"
        (number h.ceilings.max_tool_calls ∷ []))
  refuse_if (is_below h.log_lines 1 || is_above h.log_lines 200)
      (refused "harness: log_lines must be 1..200, got %d" (number h.log_lines ∷ []))
  refuse_idle "harness: ceilings.wall_clock must be positive, got %s" h.ceilings.wall_clock
  refuse_idle "harness: approval_timeout must be positive, got %s" h.approval_timeout
  refuse_idle "harness: cooldown must be positive, got %s" h.cooldown
  refuse_idle "harness: outcome_window must be positive, got %s" h.outcome_window
  refuse_idle "harness: reasoner.timeout must be positive, got %s" h.reasoner.timeout

-- The first loop over the targets.
unfoldable pub check_targets : List String → Dict String → Checked (Unit {0})
check_targets names [] = good tt
check_targets names (entry ∷ rest) = do
  refuse_if (not (contains entry.0 names))
      (refused "harness: targets key %q does not name a configured service" (text entry.0 ∷ []))
  refuse_if (not (is_container_name entry.1)) (
      refused "harness: targets[%q] value %q has invalid characters"
        (text entry.0 ∷ text entry.1 ∷ []))
  check_targets names rest

unfoldable pub check_allow_restart : List String → Checked (Unit {0})
check_allow_restart [] = good tt
check_allow_restart (name ∷ rest) = do
  refuse_if (not (is_container_name name))
      (refused "harness: allow_restart entry %q has invalid characters" (text name ∷ []))
  check_allow_restart rest

-- The second loop over the targets: `allowed` holds the names of allow_restart.
unfoldable pub check_allowed : List String → Dict String → Checked (Unit {0})
check_allowed allowed [] = good tt
check_allowed allowed (entry ∷ rest) = do
  refuse_if (not (contains entry.1 allowed)) (
      refused
        "harness: live mode target %q (%s) is not in allow_restart (ADR 0010: config narrows, never widens)"
        (text entry.0 ∷ text entry.1 ∷ []))
  check_allowed allowed rest

-- The condition on the parsed base_url; `none` is an error of url.Parse.
abbrev pub is_http_url : Option Url → Bool
is_http_url none = false
is_http_url (some u) =
    u.is_abs && (not (is_empty u.host) && (str_eq u.scheme "http" || str_eq u.scheme "https"))

abbrev pub url_hostname : Option Url → String
url_hostname none = ""
url_hostname (some u) = u.hostname

-- From the first check of the Reasoner to the egress gate.
unfoldable pub check_reasoner : (String → Option Url) → HarnessConfig → Checked (Unit {0})
check_reasoner parse_url h = do
  refuse_if (is_empty h.reasoner.base_url)
      (refused "harness: reasoner.base_url is required when mode is not off" [])
  refuse_if (is_empty h.reasoner.model)
      (refused "harness: reasoner.model is required when mode is not off" [])
  let u = parse_url h.reasoner.base_url
  refuse_if (not (is_http_url u)) (
      refused "harness: reasoner.base_url must be an absolute http(s) URL, got %q"
        (text h.reasoner.base_url ∷ []))
  let loopback = is_loopback_host (url_hostname u)
  refuse_if (loopback && h.reasoner.cloud) (
      refused "harness: reasoner.cloud must be false for a loopback base_url (ADR 0013 egress gate)"
        [])
  refuse_if (not loopback && not h.reasoner.cloud) (
      refused
        "harness: reasoner.base_url resolves off-box, which requires cloud: true (ADR 0013 egress gate)"
        [])

-- The comparison of write_ssh with the shared ssh block.
abbrev pub same_credential : Option SshConfig → SshConfig → Bool
same_credential none w = false
same_credential (some r) w =
    str_eq w.user r.user && (str_eq w.key_file r.key_file && str_eq w.password r.password)

abbrev pub required {ℓ} : {A : Type ℓ} → Option A → Refusal → Checked A
required none why = bad why
required (some a) why = good a

unfoldable pub check_live :
    (String → Checked ℤ) → Option SshConfig → HarnessConfig → Checked HarnessConfig
check_live parse read_ssh h = do
  check_allowed h.allow_restart h.targets
  w ← required h.write_ssh (refused "harness: write_ssh is required in live mode" [])
  resolved ← within (wrapped "harness: write_ssh: %w" []) (resolve_ssh parse w)
  refuse_if (same_credential read_ssh resolved) (
      refused
        "harness: write_ssh must be a distinct credential from ssh: (ADR 0022 — the write path never reuses the read-only probe credential)"
        [])
  good (record h { write_ssh = some resolved })

-- The checks that depend on the mode.
unfoldable pub check_mode :
    (String → Checked ℤ)
    → (String → Option Url)
    → Option SshConfig
    → HarnessMode
    → HarnessConfig
    → Checked HarnessConfig
check_mode parse parse_url read_ssh HarnessMode.off h = good h
check_mode parse parse_url read_ssh HarnessMode.shadow h = do check_reasoner parse_url h; good h
check_mode parse parse_url read_ssh HarnessMode.live h = do
  check_reasoner parse_url h
  check_live parse read_ssh h

-- Harness.resolve; `fold` is strings.ToLower of strings.TrimSpace.
unfoldable pub resolve_harness :
    (String → String)
    → (String → Checked ℤ)
    → (String → Option Url)
    → List String
    → Option SshConfig
    → HarnessConfig
    → Checked HarnessConfig
resolve_harness fold parse parse_url names read_ssh h = do
  mode ← within (wrapped "harness: %w" []) (
      required (parse_harness_mode fold h.mode)
        (refused (concat "unknown harness mode " h.mode) []))
  let filled = harness_defaults h
  check_bounds filled
  check_targets names filled.targets
  check_allow_restart filled.allow_restart
  check_mode parse parse_url read_ssh mode filled
