-- ===== src/Sampler/Steps.antt =====
-- What internal/sampler/sampler.go stores about disks and shares: whatever holds of the table and is
-- kept by every row of a measurement, is kept by the whole cycle but for its array state.
use server_assistant.Prelude.{
  ℕ, ◌+◌, ◌≡◌, refl, String, Bool, true, false, not, ◌||◌, Option, none, some, List, [], ◌∷◌, arith,
  All, str_eq, ◌==◌, if◌then◌else◌, Bool-cases, inl, inr,
}
use server_assistant.Prelude.Int.{ℤ, is_negative, is_above}
use server_assistant.Sampler.{
  MetricSample, SmartAttr, SmartAnswer, attrs, unread, Disk, Share, Cycle, Table, record_sample,
  number_sample, gap_sample, record_gaps, smart_attr_series, tracked_series, record_tracked,
  smart_temperature_attr_id, record_attributes, record_temperature, sample_smart, sample_disks,
  sample_shares, sample_all_shares, series_temperature, series_capacity_disk, series_capacity_share,
  series_array_state,
}

abbrev pub is_plausible : Option ℤ → Bool
is_plausible none = false
is_plausible (some v) = not (is_negative v || is_above v 100)

abbrev pub is_payload : Option ℤ → Option String → Bool
is_payload none none = false
is_payload (some v) none = true
is_payload none (some t) = true
is_payload (some v) (some t) = false

-- A gap holds nothing, a reading holds a number or a text, and a reading of a temperature a number
-- from 0 to 100.
pub record IsHonest (m : MetricSample) : Type 0 where
  pub payload : is_payload m.value m.text_value ≡ m.ok
  pub empty_gap : m.ok ≡ false → (m.value ≡ none) × (m.text_value ≡ none)
  pub plausible :
      str_eq m.series series_temperature ≡ true → m.ok ≡ true → is_plausible m.value ≡ true

-- A row of a disk or a share.
pub record IsMeasured (m : MetricSample) : Type 0 where
  pub honest : IsHonest m
  pub apart : str_eq m.series series_array_state ≡ false

gap-IsMeasured :
    (series subject note : String) (now : ℕ)
    → str_eq series series_array_state ≡ false
    → IsMeasured (gap_sample series subject note now)
gap-IsMeasured series subject note now apart = record {
  honest = record { payload = refl; empty_gap = λ e. (refl, refl); plausible = λ e f. cc };
  apart = apart;
}

number-IsMeasured :
    (series subject : String) (v : ℤ) (now : ℕ)
    → str_eq series series_temperature ≡ false
    → str_eq series series_array_state ≡ false
    → IsMeasured (number_sample series subject v now)
number-IsMeasured series subject v now other apart = record {
  honest = record {
    payload = refl;
    empty_gap = λ e. cc;
    plausible = λ e f. ground (arith, e, other);
  };
  apart = apart;
}

temperature-IsMeasured :
    (subject : String) (v : ℤ) (now : ℕ)
    → (is_negative v || is_above v 100) ≡ false
    → IsMeasured (number_sample series_temperature subject v now)
temperature-IsMeasured subject v now e = record {
  honest = record { payload = refl; empty_gap = λ f. cc; plausible = λ f g. ground (arith, e) };
  apart = refl;
}

abbrev IsApart : ℕ × String → Type 0
IsApart entry = str_eq entry.1 series_array_state ≡ false

smart_series-IsApart : All IsApart smart_attr_series
smart_series-IsApart = (refl, (refl, (refl, (refl, (refl, tt)))))

abbrev IsOther : ℕ × String → Type 0
IsOther entry =
    (entry.0 == smart_temperature_attr_id) ≡ false
    → (str_eq entry.1 series_temperature ≡ false) × (str_eq entry.1 series_array_state ≡ false)

tracked_of_all :
    (entries : List (ℕ × String)) (id : ℕ) (series : String)
    → All IsOther entries
    → (id == smart_temperature_attr_id) ≡ false
    → tracked_series id entries ≡ some series
    → (str_eq series series_temperature ≡ false) × (str_eq series series_array_state ≡ false)
tracked_of_all [] id series all other e = cc
tracked_of_all (entry ∷ rest) id series all other e = elim (Bool-cases (entry.0 == id)) [
  | inl here ↦ ground (arith, here, e, other, all.0)
  | inr there ↦ tracked_of_all rest id series all.1 other (ground (arith, there, e))
]

-- Every tracked attribute but 194 belongs to a series that is neither the temperature nor the array.
tracked-other :
    (id : ℕ) (series : String)
    → (id == smart_temperature_attr_id) ≡ false
    → tracked_series id smart_attr_series ≡ some series
    → (str_eq series series_temperature ≡ false) × (str_eq series series_array_state ≡ false)
tracked-other id series other e =
    tracked_of_all smart_attr_series id series
      (
        λ n. (refl, refl),
        (λ n. (refl, refl), (λ n. cc, (λ n. (refl, refl), (λ n. (refl, refl), tt)))),
      )
      other e

module _ (w : Cycle) (P : Table → Type 0)
    (keeps : (m : MetricSample) (table : Table) → IsMeasured m → P table → P (m ∷ table)) where
  recorded :
      (m : MetricSample) (table : Table) → IsMeasured m → P table → P (record_sample w m table)
  recorded m table h holds = elim (Bool-cases (w.insert_ok m)) [
    | inl e ↦ rw (e, if◌then◌else◌) (keeps m table h holds)
    | inr e ↦ rw (e, if◌then◌else◌) holds
  ]

  gaps_keep :
      (device note : String) (series : List (ℕ × String)) (table : Table)
      → All IsApart series
      → P table
      → P (record_gaps w device note series table)
  unfolding record_gaps
  gaps_keep device note [] table apart holds = holds
  gaps_keep device note (entry ∷ rest) table apart holds =
      gaps_keep device note rest _ apart.1
        (recorded _ table (gap-IsMeasured entry.1 device note w.now apart.0) holds)

  tracked_keeps :
      (device : String) (a : SmartAttr) (o : Option String) (table : Table)
      → ((series : String)
          → o ≡ some series
          → (str_eq series series_temperature ≡ false) × (str_eq series series_array_state ≡ false))
      → P table
      → P (record_tracked w device a o table)
  tracked_keeps device a none table other holds = holds
  tracked_keeps device a (some series) table other holds =
      let (cool, apart) = other series refl in
      recorded _ table (number-IsMeasured series device a.raw_value w.now cool apart) holds

  attributes_keep :
      (device : String) (found : List SmartAttr) (table : Table)
      → P table
      → P (record_attributes w device found table)
  unfolding record_attributes
  attributes_keep device [] table holds = holds
  attributes_keep device (a ∷ rest) table holds =
      elim (Bool-cases (a.id == smart_temperature_attr_id)) [
        | inl e ↦ rw (e, if◌then◌else◌) (attributes_keep device rest table holds)
        | inr e ↦
            rw (e, if◌then◌else◌)
              (attributes_keep device rest _ (
                tracked_keeps device a (tracked_series a.id smart_attr_series) table
                  (λ series f. tracked-other a.id series e f) holds))
      ]

  temperature_keeps :
      (device : String) (t : Option ℤ) (table : Table)
      → P table
      → P (record_temperature w device t table)
  unfolding record_temperature
  temperature_keeps device none table holds =
      recorded _ table (gap-IsMeasured _ device _ w.now refl) holds
  temperature_keeps device (some v) table holds =
      elim (Bool-cases (is_negative v || is_above v 100)) [
        | inl e ↦
            rw (e, if◌then◌else◌) (recorded _ table (gap-IsMeasured _ device _ w.now refl) holds)
        | inr e ↦
            rw (e, if◌then◌else◌) (recorded _ table (temperature-IsMeasured device v w.now e) holds)
      ]

  smart_keeps :
      (device : String) (answer : SmartAnswer) (table : Table)
      → P table
      → P (sample_smart w device answer table)
  unfolding sample_smart
  smart_keeps device (unread note) table holds =
      gaps_keep device note smart_attr_series table smart_series-IsApart holds
  smart_keeps device (attrs s) table holds =
      temperature_keeps device s.temperature _ (attributes_keep device s.attributes table holds)

  pub disks_keep :
      (n : ℕ) (disks : List Disk) (table : Table) → P table → P (sample_disks w n disks table).0
  unfolding sample_disks
  disks_keep n [] table holds = holds
  disks_keep n (d ∷ rest) table holds = disks_keep (n + 1) rest _ (
      smart_keeps d.device (w.smart n d.device) _ (
        recorded _ table
          (number-IsMeasured series_capacity_disk d.name d.used_bytes w.now refl refl) holds))

  shares_keep : (shares : List Share) (table : Table) → P table → P (sample_shares w shares table)
  unfolding sample_shares
  shares_keep [] table holds = holds
  shares_keep (sh ∷ rest) table holds = shares_keep rest _ (
      recorded _ table
        (number-IsMeasured series_capacity_share sh.name sh.used_bytes w.now refl refl) holds)

  pub all_shares_keep :
      (shares : Option (List Share)) (table : Table)
      → P table
      → P (sample_all_shares w shares table)
  all_shares_keep none table holds = holds
  all_shares_keep (some shares) table holds = shares_keep shares table holds
