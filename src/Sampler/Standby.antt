-- ===== src/Sampler/Standby.antt =====
-- A disk that internal/sampler/sampler.go cannot read, such as one in standby: it is asked once, and
-- the gap is recorded.
use server_assistant.Prelude.{
  ℕ, ◌+◌, ◌≡◌, refl, ap, String, true, Option, none, some, List, [], ◌∷◌, ◌++◌, map,
}
use mathlib.Core.List.{reverse}
use server_assistant.Sampler.{
  MetricSample, unread, Disk, ArrayState, Cycle, Table, gap_sample, record_gaps, smart_attr_series,
  sample_smart, sample_disks, sample_array, sample_once,
}

-- The gap rows of a device, one for each tracked series.
abbrev pub gap_rows : Cycle → String → String → List MetricSample
gap_rows w device note =
    map (λ (entry : ℕ × String). gap_sample entry.1 device note w.now) (reverse smart_attr_series)

abbrev pub devices : Option ArrayState → List String
devices none = []
devices (some arr) = map (λ d. d.device) arr.disks

asked_disks :
    (w : Cycle) (n : ℕ) (disks : List Disk) (table : Table)
    → (sample_disks w n disks table).1 ≡ map (λ d. d.device) disks
unfolding sample_disks
asked_disks w n [] table = refl
asked_disks w n (d ∷ rest) table = ap (λ l. d.device ∷ l) (asked_disks w (n + 1) rest _)

asked_array :
    (w : Cycle) (arr : Option ArrayState) (table : Table)
    → (sample_array w arr table).1 ≡ devices arr
asked_array w none table = refl
asked_array w (some arr) table = asked_disks w 0 arr.disks _

stored_gaps :
    (w : Cycle) (device note : String) (table : Table)
    → ((m : MetricSample) → w.insert_ok m ≡ true)
    → sample_smart w device (unread note) table ≡ gap_rows w device note ++ table
unfolding sample_smart record_gaps
stored_gaps w device note table stores = simp (stores) refl

-- A cycle asks SmartFor for the device of each disk of the array exactly once, in order, whatever is
-- answered; and where the store takes every row, an answer with an error, standby or not, adds
-- exactly one gap for each of the five tracked series and no reading.
pub unread_disk_leaves_gaps :
    (retention : ℕ) (w : Cycle) (device note : String) (table : Table)
    → ((m : MetricSample) → w.insert_ok m ≡ true)
    → ((sample_once retention w table).1 ≡ devices w.array)
      × (sample_smart w device (unread note) table ≡ gap_rows w device note ++ table)
unfolding sample_once
unread_disk_leaves_gaps retention w device note table stores =
    (asked_array w w.array table, stored_gaps w device note table stores)
