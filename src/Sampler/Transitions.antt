-- ===== src/Sampler/Transitions.antt =====
-- The rows of the array state in internal/sampler/sampler.go are a log of transitions.
use mathlib.Core.Path.{subst}
use native.Mathlib.Nat.{le_refl}
use server_assistant.Prelude.{
  ℕ, ◌-◌, ◌≡◌, ◌≤◌, refl, sym, String, Bool, true, false, Option, none, some, List, [], ◌∷◌, arith,
  ltb, if◌then◌else◌, Bool-cases, Option-cases, inl, inr,
}
use server_assistant.Sampler.{
  MetricSample, ArrayState, Cycle, Table, is_series, latest_sample, prune, state_sample,
  is_unchanged, sample_array_state, sample_array, sample_once, run_sampler, series_array_state,
  array_subject,
}
use server_assistant.Sampler.Steps.{IsMeasured, disks_keep, all_shares_keep}

abbrev pub is_array_row : MetricSample → Bool
is_array_row = is_series series_array_state array_subject

-- The row of the array that was inserted last.
abbrev pub last_row : Table → Option MetricSample
last_row [] = none
last_row (m ∷ table) = let before = last_row table in if is_array_row m then some m else before

-- A row after another: not earlier, and with another text.
abbrev pub Follows : MetricSample → Option MetricSample → Type 0
Follows m none = Unit
Follows m (some before) =
    (before.sampled_at ≤ m.sampled_at)
    × ((state : String) → m.text_value ≡ some state → is_unchanged (some before) state ≡ false)

-- Every row of the array follows the one before it.
abbrev pub IsLog : Table → Type 0
IsLog [] = Unit
IsLog (m ∷ table) = (is_array_row m ≡ true → Follows m (last_row table)) × IsLog table

abbrev NotAfter : ℕ → Option MetricSample → Type 0
NotAfter now none = Unit
NotAfter now (some m) = m.sampled_at ≤ now

-- In a log, the query by time finds the row that was inserted last.
latest-eq-last :
    (table : Table)
    → IsLog table
    → latest_sample series_array_state array_subject table ≡ last_row table
unfolding latest_sample
latest-eq-last [] log = refl
latest-eq-last (m ∷ table) log =
    let rest = latest-eq-last table log.1 in
    elim (Bool-cases (is_array_row m)) [
      | inl e ↦ elim (Option-cases (last_row table)) [
        | inl none_yet ↦ ground (arith, e, rest, none_yet)
        | inr (before, at) ↦
            let order = (subst (Follows m) at (log.0 e)).0 in ground (arith, e, rest, at, order)
      ]
      | inr e ↦ ground (arith, e, rest)
    ]

abbrev kept : ℕ → Option MetricSample → Option MetricSample
kept cutoff none = none
kept cutoff (some m) = if ltb m.sampled_at cutoff then none else some m

last_row-prune :
    (cutoff : ℕ) (table : Table)
    → IsLog table
    → last_row (prune cutoff table) ≡ kept cutoff (last_row table)
unfolding prune
last_row-prune cutoff [] log = refl
last_row-prune cutoff (m ∷ table) log =
    let rest = last_row-prune cutoff table log.1 in
    elim (Bool-cases (is_array_row m)) [
      | inl e ↦ elim (Option-cases (last_row table)) [
        | inl none_yet ↦ ground (arith, e, rest, none_yet)
        | inr (before, at) ↦
            let order = (subst (Follows m) at (log.0 e)).0 in ground (arith, e, rest, at, order)
      ]
      | inr e ↦ ground (arith, e, rest)
    ]

Follows-kept :
    (cutoff : ℕ) (m : MetricSample) (o : Option MetricSample)
    → Follows m o
    → Follows m (kept cutoff o)
Follows-kept cutoff m none f = tt
Follows-kept cutoff m (some before) f = elim (Bool-cases (ltb before.sampled_at cutoff)) [
  | inl e ↦ rw (e, if◌then◌else◌) tt
  | inr e ↦ rw (e, if◌then◌else◌) f
]

prune-IsLog : (cutoff : ℕ) (table : Table) → IsLog table → IsLog (prune cutoff table)
unfolding prune
prune-IsLog cutoff [] log = tt
prune-IsLog cutoff (m ∷ table) log =
    let rest = prune-IsLog cutoff table log.1 in
    elim (Bool-cases (ltb m.sampled_at cutoff)) [
      | inl e ↦ rw (e, if◌then◌else◌) rest
      | inr e ↦
          rw (e, if◌then◌else◌)
            (
              λ array.
                  subst (Follows m) (sym (last_row-prune cutoff table log.1))
                    (Follows-kept cutoff m (last_row table) (log.0 array)),
              rest,
            )
    ]

NotAfter-kept :
    (now cutoff : ℕ) (o : Option MetricSample) → NotAfter now o → NotAfter now (kept cutoff o)
NotAfter-kept now cutoff none h = tt
NotAfter-kept now cutoff (some m) h = elim (Bool-cases (ltb m.sampled_at cutoff)) [
  | inl e ↦ rw (e, if◌then◌else◌) tt
  | inr e ↦ rw (e, if◌then◌else◌) h
]

-- A log whose last row is not after `now`.
record IsCurrent (now : ℕ) (table : Table) : Type 0 where
  log : IsLog table
  past : NotAfter now (last_row table)

-- A row of a measurement is no row of the array.
measured_kept :
    (now : ℕ) (m : MetricSample) (table : Table)
    → IsMeasured m
    → IsCurrent now table
    → IsCurrent now (m ∷ table)
measured_kept now m table h c =
    let apart : is_array_row m ≡ false = ground (arith, h.apart) in
    record {
      log = (λ array. absurd (ground (arith, array, apart)), c.log);
      past = rw (apart, if◌then◌else◌) c.past;
    }

state-Follows :
    (state : String) (now : ℕ) (o : Option MetricSample)
    → NotAfter now o
    → is_unchanged o state ≡ false
    → Follows (state_sample state now) o
state-Follows state now none past changed = tt
state-Follows state now (some before) past changed =
    (past, λ s e. subst (λ x. is_unchanged (some before) x ≡ false) (cc) changed)

sample_array_state-IsCurrent :
    (w : Cycle) (state : String) (table : Table)
    → IsCurrent w.now table
    → IsCurrent w.now (sample_array_state w state table)
unfolding sample_array_state
sample_array_state-IsCurrent w state table c = elim (Bool-cases w.latest_ok) [
  | inr e ↦ simp e c
  | inl e ↦
      elim (Bool-cases
        (is_unchanged (latest_sample series_array_state array_subject table) state)) [
          | inl same ↦ simp (e, same) c
          | inr changed ↦ elim (Bool-cases (w.insert_ok (state_sample state w.now))) [
            | inr failed ↦ simp (e, changed, failed) c
            | inl done ↦
                simp (e, changed, done)
                  (record {
                    log = (
                      λ array. state-Follows state w.now (last_row table) c.past (
                          subst (λ o. is_unchanged o state ≡ false) (latest-eq-last table c.log)
                            changed),
                      c.log,
                    );
                    past = le_refl w.now;
                  })
          ]
        ]
]

sample_array-IsCurrent :
    (w : Cycle) (arr : Option ArrayState) (table : Table)
    → IsCurrent w.now table
    → IsCurrent w.now (sample_array w arr table).0
sample_array-IsCurrent w none table c = c
sample_array-IsCurrent w (some arr) table c =
    disks_keep w (IsCurrent w.now) (measured_kept w.now) 0 arr.disks _
      (sample_array_state-IsCurrent w arr.state table c)

sample_once-IsCurrent :
    (retention : ℕ) (w : Cycle) (table : Table)
    → IsCurrent w.now table
    → IsCurrent w.now (sample_once retention w table).0
unfolding sample_once
sample_once-IsCurrent retention w table c =
    let stored =
      all_shares_keep w (IsCurrent w.now) (measured_kept w.now) w.shares _
        (sample_array-IsCurrent w w.array table c) in
    elim (Bool-cases w.prune_ok) [
      | inl e ↦ simp e (record {
        log = prune-IsLog (w.now - retention) _ stored.log;
        past =
            subst (NotAfter w.now) (sym (last_row-prune (w.now - retention) _ stored.log))
              (NotAfter-kept w.now (w.now - retention) _ stored.past);
      })
      | inr e ↦ simp e stored
    ]

-- The clock of the cycles does not go back, from `start` on.
abbrev pub IsForward : ℕ → List Cycle → Type 0
IsForward start [] = Unit
IsForward start (w ∷ ws) = (start ≤ w.now) × IsForward w.now ws

later : (now next : ℕ) (o : Option MetricSample) → now ≤ next → NotAfter now o → NotAfter next o
later now next none h past = tt
later now next (some m) h past = omega arith

runs-IsLog :
    (retention start : ℕ) (ws : List Cycle) (table : Table)
    → IsForward start ws
    → IsCurrent start table
    → IsLog (run_sampler retention ws table)
unfolding run_sampler
runs-IsLog retention start [] table forward c = c.log
runs-IsLog retention start (w ∷ ws) table forward c =
    runs-IsLog retention w.now ws (sample_once retention w table).0 forward.1 (
      sample_once-IsCurrent retention w table
        (record { log = c.log; past = later start w.now (last_row table) forward.0 c.past }))

-- From an empty table, in any number of cycles whose clock does not go back, whatever the source and
-- the store answer and whatever is pruned: each row of the array state in the table was inserted no
-- earlier than the row of the array state before it in the table, and has another state.
pub run_sampler-IsLog :
    (retention : ℕ) (ws : List Cycle) → IsForward 0 ws → IsLog (run_sampler retention ws [])
run_sampler-IsLog retention ws forward =
    runs-IsLog retention 0 ws [] forward (record { log = tt; past = tt })
