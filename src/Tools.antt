-- ===== src/Tools.antt =====
-- internal/tools/tools.go: the read-only tools of a Diagnosis. A tool maps the service that it is
-- asked for to a configured container; what it hands to the runner comes back with its answer.
pub mod Bounds
use server_assistant.Prelude.{
  ℕ, String, concat, Bool, true, false, not, ◌||◌, Option, none, some, List, [], ◌∷◌, map, ltb,
  if◌then◌else◌, ◌≡◌, ◌≤◌, refl, arith, Option-cases, Bool-cases, inl, inr,
}
use server_assistant.Prelude.Int.{ℤ, pos, is_positive, is_above, to_nat}
use server_assistant.Prelude.Dict.{Dict, lookup}
use server_assistant.Core.Domain.{ProbeSample, status_text}
use server_assistant.Config.Checked.{
  Arg, text, Refusal, refused, wrapped, Checked, good, bad, ◌>>=◌, ◌>>◌, refuse_if, within,
}
use server_assistant.Config.Texts.{is_empty, is_container_name}

-- clamp, for bounds that are not negative.
unfoldable pub clamp : ℤ → ℕ → ℕ → ℕ
clamp v default max =
    if not (is_positive v) then default else if is_above v max then max else to_nat v

-- args["service"]: a missing key reads "".
abbrev pub service_arg : Dict String → String
service_arg args = elim (lookup "service" args) [ none ↦ "" | some s ↦ s ]

abbrev pub found : Option String → Refusal → Checked String
found none why = bad why
found (some container) why = good container

-- resolveContainer
unfoldable pub resolve_container : Dict String → Dict String → Checked String
resolve_container targets args = do
  let service = service_arg args
  refuse_if (is_empty service) (refused "missing required arg %q" (text "service" ∷ []))
  container ← found (lookup service targets) (refused "unknown service %q" (text service ∷ []))
  refuse_if (not (is_container_name container)) (
      refused "service %q resolves to invalid container name %q"
        (text service ∷ text container ∷ []))
  good container

-- containerStatusCmd
abbrev pub container_status_cmd : String → String
container_status_cmd container =
    concat
      "docker inspect -f '{{.State.Status}}|{{if .State.Health}}{{.State.Health.Status}}{{end}}' "
      container

-- The library's functions: strings.TrimSpace, strings.Cut at "|", the verb %d, and the verbs that
-- print a time and a duration.
pub record Format : Type 0 where
  pub trim : String → String
  pub cut : String → Option (String × String)
  pub decimal : ℕ → String
  pub stamp : ℕ → String
  pub duration : ℕ → String

-- A call's answer, and the commands that the runner got.
abbrev pub Call : Type 0
Call = Checked String × List String

-- What a tool does once its container is resolved; `name` is the tool's.
abbrev pub with_container : String → Checked String → (String → Call) → Call
with_container name (bad why) run = (bad (wrapped (concat name ": %w") [] why), [])
with_container name (good container) run = run container

abbrev pub status_answer : Format → String → Option (String × String) → Checked String
status_answer fmt out none =
    bad (
      refused "container_status: malformed output (no status|health separator): %q" (text out ∷ []))
status_answer fmt out (some (state, health)) =
    good (concat "state=" (concat state (concat " health=" health)))

-- containerStatusTool.Call
unfoldable pub container_status :
    Format → (String → Checked String) → Dict String → Dict String → Call
container_status fmt run targets args =
    with_container "container_status" (resolve_container targets args) (λ container.
      let cmd = container_status_cmd container in
      (
        (do
          out ← within (wrapped "container_status: %w" []) (run cmd)
          status_answer fmt out (fmt.cut (fmt.trim out))),
        cmd ∷ [],
      ))

abbrev pub container_logs_cmd : Format → ℕ → String → String
container_logs_cmd fmt lines container =
    concat "docker logs --tail "
      (concat (fmt.decimal lines) (concat " " (concat container " 2>&1")))

-- ContainerLogs and containerLogsTool.Call; `lines` is the configured number.
unfoldable pub container_logs :
    Format → (String → Checked String) → Dict String → ℤ → Dict String → Call
container_logs fmt run targets lines args =
    with_container "container_logs" (resolve_container targets args) (λ container.
      let cmd = container_logs_cmd fmt (clamp lines 50 200) container in
      (within (wrapped "container_logs: %w" []) (run cmd), cmd ∷ []))

abbrev pub sample_line : Format → ProbeSample → String
sample_line fmt s =
    concat (fmt.stamp s.at)
      (concat " " (concat (status_text s.status) (concat " " (fmt.duration s.latency))))

abbrev pub joined_lines : List String → String
joined_lines [] = ""
joined_lines (line ∷ []) = line
joined_lines (line ∷ next ∷ rest) = concat line (concat "\n" (joined_lines (next ∷ rest)))

-- StatusHistory and statusHistoryTool.Call; `samples` is LoadProbeSamples.
unfoldable pub status_history :
    Format → (String → ℕ → Checked (List ProbeSample)) → ℤ → Dict String → Checked String
status_history fmt samples limit args = do
  let service = service_arg args
  refuse_if (is_empty service)
      (refused "status_history: missing required arg %q" (text "service" ∷ []))
  loaded ← within (wrapped "status_history: %w" []) (samples service (clamp limit 20 100))
  good (joined_lines (map (sample_line fmt) loaded))
