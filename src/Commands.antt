-- ===== src/Commands.antt =====
-- internal/commands/commands.go: the closed catalog of operator commands. The Docker call is an
-- input; the audit record is a log line and is left out.
use server_assistant.Prelude.{
  ℕ, ◌≤◌, String, ◌≡◌, refl, inl, inr, Bool, true, false, not, ◌||◌, Option, none, some, List, [],
  ◌∷◌, map, any, All, concat, str_eq, length, Bool-cases, Option-cases, if◌then◌else◌, arith,
}

abbrev pub restart_verb : String
restart_verb = "restart-container"

pub record Command : Type 0 where
  pub id : String
  pub label : String
  pub description : String
  pub consequence : String

pub record CommandResult : Type 0 where
  pub ok : Bool
  pub output : String
  pub started_at : ℕ
  pub finished_at : ℕ

abbrev pub command_id : String → String
command_id name = concat restart_verb (concat ":" name)

abbrev pub command_of : String → Command
command_of name = record {
  id = command_id name;
  label = concat "Restart " name;
  description = concat "Restart the " (concat name " container via the Docker Engine API.");
  consequence =
      concat "Stops and starts the "
        (concat name " container. Anything using it will drop its connections for a few seconds.");
}

-- Commands
abbrev pub commands : List String → List Command
commands allow_restart = map command_of allow_restart

-- The configuration, and what the code relies on: `cut` is strings.Cut at the colon (before, after,
-- found), `quote` the verb %q of fmt, `restart` the error of the Docker call, if any.
pub record Source : Type 0 where
  pub allow_restart : List String
  pub cut : String → String × String × Bool
  pub quote : String → String
  pub restart : String → Option String

-- A refusal with its text, or the name of the container.
pub data Target : Type 0 where
  refused : String → Target
  target : String → Target

abbrev pub unknown_command : String
unknown_command = "commands: unknown or disallowed command id"

abbrev pub is_allowed : String → List String → Bool
is_allowed name allow_restart = any (λ allowed. str_eq allowed name) allow_restart

-- resolveTarget
unfoldable pub resolve_target : Source → String → Target
resolve_target s id =
    let (verb, name, ok) = s.cut id in
    let why = concat unknown_command (concat ": " (s.quote id)) in
    if not ok || (not (str_eq verb restart_verb) || str_eq name "")
    then refused why
    else if is_allowed name s.allow_restart
    then target name
    else refused (concat why " not in commands.allow_restart")

-- What Run returns: an error without a call, a result with an error, or a result.
pub data Ran : Type 0 where
  not_run : String → Ran
  run_error : CommandResult → String → Ran
  run_done : CommandResult → Ran

abbrev pub restart_answered : String → String → ℕ → ℕ → Option String → Ran
restart_answered id name started finished (some e) =
    run_error (record { ok = false; output = e; started_at = started; finished_at = finished })
      (concat "commands: run " (concat id (concat ": " e)))
restart_answered id name started finished none = run_done (record {
  ok = true;
  output = concat name " restarted";
  started_at = started;
  finished_at = finished;
})

abbrev pub run_target : Source → String → ℕ → ℕ → Target → Ran × List String
run_target s id started finished (refused why) = (not_run why, [])
run_target s id started finished (target name) =
    (restart_answered id name started finished (s.restart name), name ∷ [])

-- Run: what it returns, and the containers that Docker was told to restart.
unfoldable pub run_command : Source → String → ℕ → ℕ → Ran × List String
run_command s id started finished = run_target s id started finished (resolve_target s id)

abbrev pub is_success : Ran → Bool
is_success (run_done res) = true
is_success _ = false

-- Docker was called, and reported no error.
abbrev pub was_restarted : Source → List String → Bool
was_restarted s [] = false
was_restarted s (name ∷ names) = elim (s.restart name) [ none ↦ true | some e ↦ false ]

-- What a run may do: restart nothing but one container of the configuration, and call it a success
-- exactly if Docker restarted it.
pub record IsConfined (s : Source) (r : Ran × List String) : Type 0 where
  pub allowed : All (λ name. is_allowed name s.allow_restart ≡ true) r.1
  pub at_most_once : length r.1 ≤ 1
  pub honest : is_success r.0 ≡ was_restarted s r.1

target-IsConfined :
    (s : Source) (id name : String) (started finished : ℕ)
    → is_allowed name s.allow_restart ≡ true
    → IsConfined s (run_target s id started finished (target name))
target-IsConfined s id name started finished a = elim (Option-cases (s.restart name)) [
  | inl e ↦ record { allowed = (a, tt); at_most_once = omega arith; honest = simp e }
  | inr (why, e) ↦ record { allowed = (a, tt); at_most_once = omega arith; honest = simp e }
]

refused-IsConfined :
    (s : Source) (id why : String) (started finished : ℕ)
    → IsConfined s (run_target s id started finished (refused why))
refused-IsConfined s id why started finished = record {
  allowed = tt;
  at_most_once = omega arith;
  honest = refl;
}

-- Whatever id comes from the browser and however it is cut: Run tells Docker to restart at most one
-- container, only one that the configuration allows, and it returns a success exactly if it made
-- that call and Docker reported no error.
pub run_command-IsConfined :
    (s : Source) (id : String) (started finished : ℕ)
    → IsConfined s (run_command s id started finished)
unfolding run_command resolve_target
run_command-IsConfined s id started finished =
    let (verb, name, ok) = s.cut id in
    elim (Bool-cases (not ok || (not (str_eq verb restart_verb) || str_eq name ""))) [
      | inl bad ↦ simp bad (refused-IsConfined s id _ started finished)
      | inr good ↦ elim (Bool-cases (is_allowed name s.allow_restart)) [
        | inl a ↦ simp (good, a) (target-IsConfined s id name started finished a)
        | inr a ↦ simp (good, a) (refused-IsConfined s id _ started finished)
      ]
    ]

-- strings.Cut at the first colon, on a text that starts with the verb and a colon: the verb has no
-- colon.
abbrev pub CutsAtColon : (String → String × String × Bool) → Type 0
CutsAtColon cut =
    (rest : String)
    → cut (concat "restart-container" (concat ":" rest)) ≡ ("restart-container", rest, true)

-- Where strings.Cut cuts at the first colon: for every name that is not empty and that the
-- configuration allows, the id under which the catalog shows it makes Run restart exactly the
-- container of this name, whatever the name holds, a colon too.
pub run_command_catalog :
    (s : Source) (name : String) (started finished : ℕ)
    → CutsAtColon s.cut
    → str_eq name "" ≡ false
    → is_allowed name s.allow_restart ≡ true
    → (run_command s (command_of name).id started finished).1 ≡ name ∷ []
unfolding run_command resolve_target
run_command_catalog s name started finished cuts named allowed =
    let cut : s.cut (command_of name).id ≡ (restart_verb, name, true) = cuts name in
    simp (cut, named, allowed)
