-- ===== src/Sampler/Honest.antt =====
-- What the rows of internal/sampler/sampler.go say, in every run.
use server_assistant.Prelude.{
  ℕ, ◌-◌, refl, String, Option, none, some, List, [], ◌∷◌, All, ltb, if◌then◌else◌, Bool-cases, inl,
  inr,
}
use server_assistant.Sampler.{
  MetricSample, ArrayState, Cycle, Table, record_sample, prune, state_sample, sample_array_state,
  sample_array, sample_once, run_sampler, is_unchanged, latest_sample, series_array_state,
  array_subject,
}
use server_assistant.Sampler.Steps.{IsHonest, IsMeasured, disks_keep, all_shares_keep}

prune-All : (cutoff : ℕ) (table : Table) → All IsHonest table → All IsHonest (prune cutoff table)
unfolding prune
prune-All cutoff [] all = tt
prune-All cutoff (m ∷ table) all =
    let rest = prune-All cutoff table all.1 in
    elim (Bool-cases (ltb m.sampled_at cutoff)) [
      | inl e ↦ rw (e, if◌then◌else◌) rest
      | inr e ↦ rw (e, if◌then◌else◌) (all.0, rest)
    ]

stored :
    (w : Cycle) (m : MetricSample) (table : Table)
    → IsHonest m
    → All IsHonest table
    → All IsHonest (record_sample w m table)
stored w m table h all = elim (Bool-cases (w.insert_ok m)) [
  | inl e ↦ rw (e, if◌then◌else◌) (h, all)
  | inr e ↦ rw (e, if◌then◌else◌) all
]

state-IsHonest : (state : String) (now : ℕ) → IsHonest (state_sample state now)
state-IsHonest state now = record { payload = refl; empty_gap = λ e. cc; plausible = λ e f. cc }

sample_array_state-All :
    (w : Cycle) (state : String) (table : Table)
    → All IsHonest table
    → All IsHonest (sample_array_state w state table)
unfolding sample_array_state
sample_array_state-All w state table all = elim (Bool-cases w.latest_ok) [
  | inr e ↦ simp e all
  | inl e ↦
      elim (Bool-cases
        (is_unchanged (latest_sample series_array_state array_subject table) state)) [
          | inl same ↦ simp (e, same) all
          | inr changed ↦ simp (e, changed) (stored w _ table (state-IsHonest state w.now) all)
        ]
]

abbrev AllHonest : Table → Type 0
AllHonest = All IsHonest

honest_kept :
    (m : MetricSample) (table : Table) → IsMeasured m → AllHonest table → AllHonest (m ∷ table)
honest_kept m table h all = (h.honest, all)

sample_array-All :
    (w : Cycle) (arr : Option ArrayState) (table : Table)
    → All IsHonest table
    → All IsHonest (sample_array w arr table).0
sample_array-All w none table all = all
sample_array-All w (some arr) table all =
    disks_keep w AllHonest honest_kept 0 arr.disks _ (sample_array_state-All w arr.state table all)

sample_once-All :
    (retention : ℕ) (w : Cycle) (table : Table)
    → All IsHonest table
    → All IsHonest (sample_once retention w table).0
unfolding sample_once
sample_once-All retention w table all =
    let stored =
      all_shares_keep w AllHonest honest_kept w.shares _ (sample_array-All w w.array table all) in
    elim (Bool-cases w.prune_ok) [
      | inl e ↦ simp e (prune-All (w.now - retention) _ stored)
      | inr e ↦ simp e stored
    ]

-- Whatever the source and the store answer in any number of cycles: of a table whose rows are honest
-- every row stays honest. A gap holds no number and no text, a reading holds one of the two, and a
-- reading of a temperature is a number from 0 to 100.
pub run_sampler-All :
    (retention : ℕ) (ws : List Cycle) (table : Table)
    → All IsHonest table
    → All IsHonest (run_sampler retention ws table)
unfolding run_sampler
run_sampler-All retention [] table all = all
run_sampler-All retention (w ∷ ws) table all =
    run_sampler-All retention ws (sample_once retention w table).0
      (sample_once-All retention w table all)
