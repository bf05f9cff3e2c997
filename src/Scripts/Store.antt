-- ===== src/Scripts/Store.antt =====
-- The tables that internal/scripts/registry.go keeps behind its Store, and the calls of the Store,
-- each of which may fail, as internal/store/queries defines them.
use server_assistant.Prelude.{
  ℕ, suc, String, Bool, true, false, ◌&&◌, Option, none, some, List, [], ◌∷◌, str_eq, if◌then◌else◌,
}
use server_assistant.Prelude.Dict.{Dict, lookup, insert}
use server_assistant.Scripts.Domain.{
  Script, approved, state_eq, TranscriptEntry, Proposal, AuditEntry, Grant,
}

pub data Error : Type 0 where
  invalid_transition dry_run_required proposal_not_found script_not_found grant_not_found : Error
  grant_revoked grant_expired grant_not_approved session_required identical store_failed : Error
  dry_run_failed_to_run : Error

pub data Result {ℓ} (A : Type ℓ) : Type ℓ where
  failure : Error → Result A
  done : A → Result A

-- What Executor.DryRun returns when it returns no error.
pub record DryRun : Type 0 where
  pub is_clean : Bool
  pub reasons : List String
  pub warnings : List String
  pub transcript : List TranscriptEntry

-- What Executor.Run returns.
pub data RunOutcome : Type 0 where
  run_error : String → RunOutcome
  exited : ℕ → Bool → RunOutcome

-- What the registry meets: the hash, texts, the clock, fresh ids, whether a call of the store
-- succeeds, the sandbox and the precondition checker (`none` is no error), each at the count of the
-- store calls made so far.
pub record Env : Type 0 where
  pub hash : String → String
  pub decimal : ℕ → String
  pub now : ℕ → ℕ
  pub new_id : ℕ → String
  pub ok : ℕ → Bool
  pub dry_run : ℕ → String → Option DryRun
  pub run : ℕ → String → RunOutcome
  pub check : ℕ → String → Option String

-- A proposal written, a dry run and its result, and a real run.
pub data Event : Type 0 where
  written : Proposal → Event
  dry_ran : String → Bool → Event
  ran : String → Event

-- The tables, the number of store calls, and what happened, the latest first.
pub record Sys : Type 0 where
  pub scripts : Dict Script
  pub proposals : Dict Proposal
  pub audit : List AuditEntry
  pub grants : Dict Grant
  pub calls : ℕ
  pub log : List Event

abbrev pub bump : Sys → Sys
bump s = record s { calls = suc s.calls }

-- The next step after a call that succeeded; an error is returned at once.
abbrev pub and_then {ℓ} :
    {A B : Type ℓ} → Sys × Result A → (A → Sys → Sys × Result B) → Sys × Result B
and_then (s, failure e) k = (s, failure e)
and_then (s, done a) k = k a s

-- A call that writes.
abbrev pub write : Env → (Sys → Sys) → Sys → Sys × Result {0} Unit
write env f s = if env.ok s.calls then (f (bump s), done tt) else (bump s, failure store_failed)

-- A call that reads a row by its key.
abbrev pub found {ℓ} : {A : Type ℓ} → Error → Option A → Result A
found e none = failure e
found e (some a) = done a

abbrev pub read {ℓ} : {A : Type ℓ} → Env → Error → (Sys → Option A) → Sys → Sys × Result A
read env e f s = if env.ok s.calls then (bump s, found e (f s)) else (bump s, failure store_failed)

abbrev pub is_there {ℓ} : {A : Type ℓ} → Option A → Bool
is_there none = false
is_there (some a) = true

-- ON CONFLICT(sha256) DO NOTHING
abbrev pub upsert_script : Env → Script → Sys → Sys × Result {0} Unit
upsert_script env sc s =
    write env
      (λ t. record t {
        scripts =
            if is_there (lookup sc.sha256 t.scripts)
            then t.scripts
            else insert sc.sha256 sc t.scripts;
      })
      s

abbrev pub get_script : Env → String → Sys → Sys × Result Script
get_script env h s = read env script_not_found (λ t. lookup h t.scripts) s

-- INSERT INTO proposals: an id that is there already is an error.
abbrev pub insert_proposal : Env → Proposal → Sys → Sys × Result {0} Unit
insert_proposal env p s =
    if is_there (lookup p.id s.proposals)
    then (bump s, failure store_failed)
    else write env
        (λ t. record t { proposals = insert p.id p t.proposals; log = written p ∷ t.log }) s

-- UPDATE proposals ... WHERE id = ?: without such a row nothing is updated.
abbrev pub update_proposal : Env → Proposal → Sys → Sys × Result {0} Unit
update_proposal env p s =
    write env
      (λ t.
        if is_there (lookup p.id t.proposals)
        then record t { proposals = insert p.id p t.proposals; log = written p ∷ t.log }
        else t)
      s

abbrev pub get_proposal : Env → String → Sys → Sys × Result Proposal
get_proposal env id s = read env proposal_not_found (λ t. lookup id t.proposals) s

abbrev pub append_audit : Env → AuditEntry → Sys → Sys × Result {0} Unit
append_audit env e s = write env (λ t. record t { audit = e ∷ t.audit }) s

-- WHERE script_hash = ? AND state = 'approved'
abbrev pub is_approved_for : String → Proposal → Bool
is_approved_for h p = str_eq p.script_hash h && state_eq p.state approved

abbrev pub find_approved : String → Dict Proposal → Bool
find_approved h [] = false
find_approved h (row ∷ rows) = if is_approved_for h row.1 then true else find_approved h rows
