-- ===== src/Sampler.antt =====
-- internal/sampler/sampler.go: one sampling cycle over the table of metric samples (the queries of
-- internal/store/metric_samples.go). The samples are whole numbers; a float64 is modelled by the
-- integer that it holds. Log lines are left out.
pub mod Steps
pub mod Honest
pub mod Standby
pub mod Transitions
use server_assistant.Prelude.{
  ℕ, suc, zero, ◌+◌, ◌-◌, String, Bool, true, false, not, ◌&&◌, ◌||◌, Option, none, some, List, [],
  ◌∷◌, ◌++◌, str_eq, ltb, ◌==◌, if◌then◌else◌,
}
use server_assistant.Prelude.Int.{ℤ, pos, is_negative, is_above}

abbrev pub series_reallocated_sectors : String
series_reallocated_sectors = "smart.reallocated_sector_ct"

abbrev pub series_pending_sectors : String
series_pending_sectors = "smart.current_pending_sector"

abbrev pub series_offline_uncorrectable : String
series_offline_uncorrectable = "smart.offline_uncorrectable"

abbrev pub series_temperature : String
series_temperature = "smart.temperature_celsius"

abbrev pub series_power_on_hours : String
series_power_on_hours = "smart.power_on_hours"

abbrev pub series_capacity_disk : String
series_capacity_disk = "capacity.disk"

abbrev pub series_capacity_share : String
series_capacity_share = "capacity.share"

abbrev pub series_array_state : String
series_array_state = "array.state"

abbrev pub array_subject : String
array_subject = "array"

-- smartAttrSeries; the order in which Go ranges over it is left open, and nothing depends on it.
abbrev pub smart_attr_series : List (ℕ × String)
smart_attr_series =
    (5, series_reallocated_sectors)
    ∷ (9, series_power_on_hours)
    ∷ (194, series_temperature)
    ∷ (197, series_pending_sectors)
    ∷ (198, series_offline_uncorrectable)
    ∷ []

-- `sampled_at` is in milliseconds.
pub record MetricSample : Type 0 where
  pub series : String
  pub subject : String
  pub value : Option ℤ
  pub text_value : Option String
  pub ok : Bool
  pub note : String
  pub sampled_at : ℕ

pub record SmartAttr : Type 0 where
  pub id : ℕ
  pub raw_value : ℤ

pub record SmartAttrs : Type 0 where
  pub temperature : Option ℤ
  pub attributes : List SmartAttr

-- What SmartFor answers; an error has a text, whether or not it is ErrDiskStandby.
pub data SmartAnswer : Type 0 where
  attrs : SmartAttrs → SmartAnswer
  unread : String → SmartAnswer

pub record Disk : Type 0 where
  pub name : String
  pub device : String
  pub used_bytes : ℤ

pub record ArrayState : Type 0 where
  pub state : String
  pub disks : List Disk

pub record Share : Type 0 where
  pub name : String
  pub used_bytes : ℤ

-- What one cycle meets: the clock, the answers of the source (`none` is an error; the n-th call of
-- SmartFor may answer in its own way), and which queries of the store succeed.
pub record Cycle : Type 0 where
  pub now : ℕ
  pub array : Option ArrayState
  pub shares : Option (List Share)
  pub smart : ℕ → String → SmartAnswer
  pub latest_ok : Bool
  pub insert_ok : MetricSample → Bool
  pub prune_ok : Bool

-- The rows, the one that was inserted last first.
abbrev pub Table : Type 0
Table = List MetricSample

-- RecordMetricSample
abbrev pub record_sample : Cycle → MetricSample → Table → Table
record_sample w m table = if w.insert_ok m then m ∷ table else table

abbrev pub is_series : String → String → MetricSample → Bool
is_series series subject m = str_eq m.series series && str_eq m.subject subject

abbrev pub newer : MetricSample → Option MetricSample → MetricSample
newer m none = m
newer m (some other) = if ltb m.sampled_at other.sampled_at then other else m

-- LatestMetricSample: by sampled_at, then by the order of insertion; `none` is sql.ErrNoRows.
unfoldable pub latest_sample : String → String → Table → Option MetricSample
latest_sample series subject [] = none
latest_sample series subject (m ∷ table) =
    let rest = latest_sample series subject table in
    if is_series series subject m then some (newer m rest) else rest

-- PruneMetricSamples
unfoldable pub prune : ℕ → Table → Table
prune cutoff [] = []
prune cutoff (m ∷ table) =
    let rest = prune cutoff table in if ltb m.sampled_at cutoff then rest else m ∷ rest

abbrev pub number_sample : String → String → ℤ → ℕ → MetricSample
number_sample series subject v now = record {
  series = series;
  subject = subject;
  value = some v;
  text_value = none;
  ok = true;
  note = "";
  sampled_at = now;
}

abbrev pub state_sample : String → ℕ → MetricSample
state_sample state now = record {
  series = series_array_state;
  subject = array_subject;
  value = none;
  text_value = some state;
  ok = true;
  note = "";
  sampled_at = now;
}

abbrev pub gap_sample : String → String → String → ℕ → MetricSample
gap_sample series subject note now = record {
  series = series;
  subject = subject;
  value = none;
  text_value = none;
  ok = false;
  note = note;
  sampled_at = now;
}

-- The comparison with the last array state.
abbrev pub is_unchanged : Option MetricSample → String → Bool
is_unchanged none state = false
is_unchanged (some last) state = elim last.text_value [ none ↦ false | some t ↦ str_eq t state ]

-- sampleArrayState
unfoldable pub sample_array_state : Cycle → String → Table → Table
sample_array_state w state table =
    if not w.latest_ok
    then table
    else if is_unchanged (latest_sample series_array_state array_subject table) state
    then table
    else record_sample w (state_sample state w.now) table

-- recordCapacity
abbrev pub record_capacity : Cycle → String → String → ℤ → Table → Table
record_capacity w series subject used_bytes table =
    record_sample w (number_sample series subject used_bytes w.now) table

-- recordSMARTGap
abbrev pub record_smart_gap : Cycle → String → String → String → Table → Table
record_smart_gap w series subject note table =
    record_sample w (gap_sample series subject note w.now) table

-- The loop of sampleSMART over the tracked series, after an error.
unfoldable pub record_gaps : Cycle → String → String → List (ℕ × String) → Table → Table
record_gaps w device note [] table = table
record_gaps w device note (entry ∷ rest) table =
    record_gaps w device note rest (record_smart_gap w entry.1 device note table)

-- series, tracked := smartAttrSeries[id]
abbrev pub tracked_series : ℕ → List (ℕ × String) → Option String
tracked_series id [] = none
tracked_series id (entry ∷ rest) =
    let other = tracked_series id rest in if entry.0 == id then some entry.1 else other

-- The body of the loop over the attributes.
abbrev pub record_tracked : Cycle → String → SmartAttr → Option String → Table → Table
record_tracked w device a none table = table
record_tracked w device a (some series) table =
    record_sample w (number_sample series device a.raw_value w.now) table

abbrev pub smart_temperature_attr_id : ℕ
smart_temperature_attr_id = 194

unfoldable pub record_attributes : Cycle → String → List SmartAttr → Table → Table
record_attributes w device [] table = table
record_attributes w device (a ∷ rest) table = record_attributes w device rest (
    if a.id == smart_temperature_attr_id
    then table
    else record_tracked w device a (tracked_series a.id smart_attr_series) table)

-- recordSMARTTemperature
unfoldable pub record_temperature : Cycle → String → Option ℤ → Table → Table
record_temperature w device none table =
    record_smart_gap w series_temperature device "device reported no temperature" table
record_temperature w device (some celsius) table =
    if is_negative celsius || is_above celsius 100
    then record_smart_gap w series_temperature device
        "reported value outside plausible range (0-100C)" table
    else record_sample w (number_sample series_temperature device celsius w.now) table

-- sampleSMART, with the answer of SmartFor.
unfoldable pub sample_smart : Cycle → String → SmartAnswer → Table → Table
sample_smart w device (unread note) table = record_gaps w device note smart_attr_series table
sample_smart w device (attrs s) table =
    record_temperature w device s.temperature (record_attributes w device s.attributes table)

-- The loop of sampleOnce over the disks; `n` calls of SmartFor were made before. What comes back are
-- the table and the devices that SmartFor was asked for, in order.
unfoldable pub sample_disks : Cycle → ℕ → List Disk → Table → Table × List String
sample_disks w n [] table = (table, [])
sample_disks w n (d ∷ rest) table =
    let stored = record_capacity w series_capacity_disk d.name d.used_bytes table in
    let (after, asked) =
      sample_disks w (n + 1) rest (sample_smart w d.device (w.smart n d.device) stored) in
    (after, d.device ∷ asked)

unfoldable pub sample_shares : Cycle → List Share → Table → Table
sample_shares w [] table = table
sample_shares w (sh ∷ rest) table =
    sample_shares w rest (record_capacity w series_capacity_share sh.name sh.used_bytes table)

abbrev pub sample_array : Cycle → Option ArrayState → Table → Table × List String
sample_array w none table = (table, [])
sample_array w (some arr) table = sample_disks w 0 arr.disks (sample_array_state w arr.state table)

abbrev pub sample_all_shares : Cycle → Option (List Share) → Table → Table
sample_all_shares w none table = table
sample_all_shares w (some shares) table = sample_shares w shares table

-- sampleOnce; `retention` is in milliseconds.
unfoldable pub sample_once : ℕ → Cycle → Table → Table × List String
sample_once retention w table =
    let (sampled, asked) = sample_array w w.array table in
    let stored = sample_all_shares w w.shares sampled in
    (if w.prune_ok then prune (w.now - retention) stored else stored, asked)

-- Run, for the cycles that it makes.
unfoldable pub run_sampler : ℕ → List Cycle → Table → Table
run_sampler retention [] table = table
run_sampler retention (w ∷ ws) table = run_sampler retention ws (sample_once retention w table).0
