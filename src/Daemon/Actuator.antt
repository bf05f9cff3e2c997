-- ===== src/Daemon/Actuator.antt =====
-- internal/actuator/ssh.go: the actuator behind the write credential. What it hands to the runner
-- comes back with the answer, in order.
use server_assistant.Prelude.{String, concat, not, List, [], ◌∷◌, if◌then◌else◌}
use server_assistant.Config.Checked.{text, Refusal, refused, wrapped, Checked, good, bad}
use server_assistant.Config.Texts.{is_empty, is_container_name}
use server_assistant.Config.Blocks.{contains}

-- The struct SSH: the keys of the set `allow`; the runner is an argument of the methods.
pub record Actuator : Type 0 where
  pub allow : List String

-- NewSSH
abbrev pub new_actuator : List String → Actuator
new_actuator allow = record { allow = allow }

abbrev pub drop_output : (Refusal → Refusal) → Checked String → Checked (Unit {0})
drop_output frame (good out) = good tt
drop_output frame (bad why) = bad (frame why)

-- SSH.RestartContainer
unfoldable pub restart_container :
    (String → Checked String) → Actuator → String → Checked (Unit {0}) × List String
restart_container run a container =
    if not (is_container_name container)
    then (bad (refused "actuator: refusing invalid container name %q" (text container ∷ [])), [])
    else if not (contains container a.allow)
    then (
      bad (refused "actuator: container %q is not in the restart allowlist" (text container ∷ [])),
      [],
    )
    else let cmd = concat "docker restart " container in
      (drop_output (wrapped "actuator: restart %s: %w" (text container ∷ [])) (run cmd), cmd ∷ [])

abbrev pub version_cmd : String
version_cmd = "docker version --format {{.Server.Version}}"

-- SSH.Healthy; `trim` is strings.TrimSpace.
unfoldable pub is_healthy :
    (String → String) → (String → Checked String) → Checked (Unit {0}) × List String
is_healthy trim run = (
  elim (run version_cmd) [
    | bad why ↦ bad (wrapped "actuator: health check: %w" [] why)
    | good out ↦
        if is_empty (trim out)
        then bad (refused "actuator: health check: empty output" [])
        else good tt
  ],
  version_cmd ∷ [],
)
