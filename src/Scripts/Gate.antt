-- ===== src/Scripts/Gate.antt =====
-- What internal/scripts promises of approval and execution, over any sequence of calls and whatever
-- the store, the sandbox and the precondition checker answer: the invariant, and the transitions.
use server_assistant.Prelude.{
  ℕ, String, ◌≡◌, ◌≢◌, inl, inr, Bool, true, false, ◌&&◌, some, List, [], ◌∷◌, any, str_eq, eq_iff,
  arith, Bool-cases, All,
}
use server_assistant.Prelude.Dict.{Dict, lookup, insert}
use server_assistant.Scripts.Domain.{
  Script, ProposalState, proposed, dry_run_ok, dry_run_failed, approved, running, succeeded, failed,
  precondition_failed, can_transition_to, state_eq, Proposal,
}
use server_assistant.Scripts.Store.{
  Result, failure, done, Env, Event, written, dry_ran, ran, Sys, and_then,
}
use server_assistant.Scripts.Registry.{moved}

-- The states that a proposal reaches only through a clean dry run.
abbrev pub is_reviewed : ProposalState → Bool
is_reviewed proposed = false
is_reviewed dry_run_failed = false
is_reviewed _ = true

-- The states that a proposal reaches only through an approval.
abbrev pub is_released : ProposalState → Bool
is_released approved = true
is_released running = true
is_released succeeded = true
is_released failed = true
is_released precondition_failed = true
is_released _ = false

-- A clean dry run of a text with this hash.
abbrev pub cleans : Env → String → Event → Bool
cleans env h (dry_ran body ok) = ok && str_eq (env.hash body) h
cleans env h _ = false

-- A proposal written as approved, for this hash.
abbrev pub approves : String → Event → Bool
approves h (written p) = str_eq p.script_hash h && state_eq p.state approved
approves h _ = false

abbrev pub clean_seen : Env → String → List Event → Bool
clean_seen env h log = any (cleans env h) log

abbrev pub approval_seen : String → List Event → Bool
approval_seen h log = any (approves h) log

-- What a log (the latest event first) must hold of a proposal in this state for this hash.
pub record IsBacked (env : Env) (st : ProposalState) (h : String) (log : List Event) : Type 0 where
  pub clean : is_reviewed st ≡ true → clean_seen env h log ≡ true
  pub released : is_released st ≡ true → approval_seen h log ≡ true

-- Every proposal written is backed, and every script run has been dry run without an objection, and
-- approved, under its hash.
abbrev pub IsGated : Env → List Event → Type 0
IsGated env [] = Unit
IsGated env (written p ∷ log) =
    (is_reviewed p.state ≡ true → clean_seen env p.script_hash log ≡ true) × IsGated env log
IsGated env (dry_ran body ok ∷ log) = IsGated env log
IsGated env (ran body ∷ log) =
    (clean_seen env (env.hash body) log ≡ true)
    × (approval_seen (env.hash body) log ≡ true)
    × IsGated env log

pub record IsSafe (env : Env) (s : Sys) : Type 0 where
  pub scripts : (h : String) (sc : Script) → lookup h s.scripts ≡ some sc → env.hash sc.body ≡ h
  pub proposals :
      (k : String) (p : Proposal)
      → lookup k s.proposals ≡ some p
      → IsBacked env p.state p.script_hash s.log
  pub rows : All (λ row. IsBacked env row.1.state row.1.script_hash s.log) s.proposals
  pub named : (k : String) (p : Proposal) → lookup k s.proposals ≡ some p → p.id ≡ k
  pub gated : IsGated env s.log

pub IsBacked-cons :
    (env : Env) (st : ProposalState) (h : String) (e : Event) (log : List Event)
    → IsBacked env st h log
    → IsBacked env st h (e ∷ log)
IsBacked-cons env st h e log b = record {
  clean = λ r. ground (arith, b.clean r);
  released = λ r. ground (arith, b.released r);
}

pub rows-cons :
    (env : Env) (e : Event) (log : List Event) (d : Dict Proposal)
    → All (λ row. IsBacked env row.1.state row.1.script_hash log) d
    → All (λ row. IsBacked env row.1.state row.1.script_hash (e ∷ log)) d
rows-cons env e log [] rows = tt
rows-cons env e log (row ∷ d) (b, rows) =
    (IsBacked-cons env row.1.state row.1.script_hash e log b, rows-cons env e log d rows)

pub rows-insert :
    (env : Env) (k : String) (p : Proposal) (log : List Event) (d : Dict Proposal)
    → IsBacked env p.state p.script_hash log
    → All (λ row. IsBacked env row.1.state row.1.script_hash log) d
    → All (λ row. IsBacked env row.1.state row.1.script_hash log) (insert k p d)
unfolding insert
rows-insert env k p log [] b rows = (b, tt)
rows-insert env k p log (row ∷ d) b (old, rows) = elim (Bool-cases (str_eq row.0 k)) [
  | inl same ↦ simp same (b, rows)
  | inr other ↦ simp other (old, rows-insert env k p log d b rows)
]

-- A step of the state machine other than the one that a clean dry run makes is backed by where it
-- came from and, for an approval, by itself.
pub IsBacked-step :
    (env : Env) (p : Proposal) (next : ProposalState) (now : ℕ) (log : List Event)
    → can_transition_to p.state next ≡ true
    → next ≢ dry_run_ok
    → IsBacked env p.state p.script_hash log
    → IsBacked env next p.script_hash (written (moved next now p) ∷ log)
IsBacked-step env p next now log edge other b = record {
  clean = λ r. ground (arith, edge, other, b.clean, r);
  released = λ r. ground (arith, edge, other, b.released, r, eq_iff p.script_hash p.script_hash);
}

-- The states are safe, and a value that is returned satisfies a condition in its state.
abbrev pub Holds : {A : Type 0} → Env → (A → Sys → Type 0) → Sys × Result A → Type 0
Holds env Post (s, failure e) = IsSafe env s
Holds env Post (s, done a) = IsSafe env s × Post a s

pub Holds-and_then :
    {A B : Type 0} (env : Env) (P : A → Sys → Type 0) (Q : B → Sys → Type 0) (r : Sys × Result A)
    (k : A → Sys → Sys × Result B)
    → Holds env P r
    → ((a : A) (s : Sys) → IsSafe env s → P a s → Holds env Q (k a s))
    → Holds env Q (and_then r k)
Holds-and_then env P Q (s, failure e) k h next = h
Holds-and_then env P Q (s, done a) k h next = next a s h.0 h.1
