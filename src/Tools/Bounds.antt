-- ===== src/Tools/Bounds.antt =====
-- What a tool of internal/tools/tools.go may do: it runs one command at most, on the configured
-- container of the service that it was asked for, and its numbers stay in their bounds.
use server_assistant.Prelude.{
  ℕ, String, true, Option, none, some, List, [], ◌∷◌, ◌≡◌, ◌⊎◌, ◌≤◌, refl, arith, inl, inr,
}
use server_assistant.Prelude.Int.{ℤ}
use server_assistant.Prelude.Dict.{Dict, lookup}
use server_assistant.Config.Checked.{Refusal, Checked, good, bad, accepted_bind, accepted_guard}
use server_assistant.Config.Texts.{is_container_name}
use server_assistant.Tools.{
  clamp, service_arg, found, resolve_container, container_status_cmd, Format, with_container, Call,
  container_status, container_logs_cmd, container_logs,
}

pub clamp_bounds :
    (v : ℤ) (default max : ℕ)
    → 1 ≤ default
    → default ≤ max
    → (1 ≤ clamp v default max) × (clamp v default max ≤ max)
unfolding clamp
clamp_bounds v default max low high = ground arith

-- A container that the configuration gives to the service, with a name that is safe in a command.
pub record IsResolved (targets args : Dict String) (container : String) : Type 0 where
  pub configured : lookup (service_arg args) targets ≡ some container
  pub safe : is_container_name container ≡ true

accepted_found :
    (o : Option String) (why : Refusal) {container : String}
    → found o why ≡ good container
    → o ≡ some container
accepted_found none why e = cc
accepted_found (some c) why e = cc

pub resolve_container-IsResolved :
    (targets args : Dict String) (container : String)
    → resolve_container targets args ≡ good container
    → IsResolved targets args container
unfolding resolve_container
resolve_container-IsResolved targets args container e =
    let n = accepted_guard _ _ _ e in
    let c = accepted_bind _ _ n.1 in
    let r = accepted_guard _ _ _ c.2 in
    let same : c.0 ≡ container = cc r.1 in
    record {
      configured = rw (← same) (accepted_found _ _ c.1);
      safe = rw (← same) (ground (arith, r.0));
    }

-- A call runs nothing and fails, or runs one command: `build` of a resolved container.
pub record IsOneCommand (targets args : Dict String) (build : String → String) (cmds : List String)
    : Type 0 where
  pub container : String
  pub resolved : IsResolved targets args container
  pub command : cmds ≡ build container ∷ []

abbrev pub IsConfined : Dict String → Dict String → (String → String) → Call → Type 0
IsConfined targets args build c =
    ((c.1 ≡ []) × ((why : Refusal) × (c.0 ≡ bad why))) ⊎ IsOneCommand targets args build c.1

confined :
    (targets args : Dict String) (name : String) (build : String → String)
    (answer : String → Checked String) (m : Checked String)
    → resolve_container targets args ≡ m
    → IsConfined targets args build
        (with_container name m (λ container. (answer container, build container ∷ [])))
confined targets args name build answer (bad why) e = inl (refl, (_, refl))
confined targets args name build answer (good container) e = inr (record {
  container = container;
  resolved = resolve_container-IsResolved targets args container e;
  command = refl;
})

-- A call of container_status or of container_logs, whatever service the Reasoner names: it runs no
-- command and fails, or it runs the one fixed command of the tool on a container that the
-- configuration gives to the service and whose name is safe in a command; container_logs asks for
-- 1 to 200 lines.
pub tools-IsConfined :
    (fmt : Format) (run : String → Checked String) (targets args : Dict String) (lines : ℤ)
    → IsConfined targets args container_status_cmd (container_status fmt run targets args)
      × ((n : ℕ) × (1 ≤ n)
          × (n ≤ 200)
          × IsConfined targets args
              (container_logs_cmd fmt n)
              (container_logs fmt run targets lines args))
unfolding container_status container_logs
tools-IsConfined fmt run targets args lines =
    let bounds = clamp_bounds lines 50 200 (omega arith) (omega arith) in
    (
      confined targets args "container_status" container_status_cmd _ _ refl,
      (
        clamp lines 50 200,
        bounds.0,
        bounds.1,
        confined targets args "container_logs" (container_logs_cmd fmt (clamp lines 50 200)) _ _
            refl,
      ),
    )
