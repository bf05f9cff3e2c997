-- ===== src/Mcp/Trends/Honest.antt =====
-- What get_smart_trend (internal/mcp/tools_trends.go) may claim.
use server_assistant.Prelude.{
  ℕ, ◌+◌, ◌*◌, ◌≤◌, ◌≡◌, ◌≢◌, refl, ◌∙◌, String, true, Option, none, some, List, [], ◌∷◌, arith,
  length, Bool-cases, inl, inr, if◌then◌else◌, if_true, Option-cases,
}
use server_assistant.Prelude.Int.{ℤ}
use server_assistant.Prelude.Dict.{Dict, lookup}
use server_assistant.Mcp.{Json}
use server_assistant.Mcp.Trends.{
  hour, max_window_hours, whole_positive_number, window, window_of, choose_window, trend_window,
  TrendPoint, insufficient_data, up, int_below, Summary, Tally, tally_point, tally_all,
  is_gap_heavy, empty_tally, trend_summary, point_direction,
}

whole_positive_number_pos : (j : Json) (n : ℕ) → whole_positive_number j ≡ some n → 1 ≤ n
whole_positive_number_pos j n e = ground (arith, e)

window_of_bounds :
    (o : Option ℕ) (unit w : ℕ) (message : String)
    → ((n : ℕ) → o ≡ some n → 1 ≤ n * unit)
    → window_of o unit message ≡ window w
    → (hour ≤ w) × (w ≤ max_window_hours * hour)
window_of_bounds none unit w message least e = absurd (ground (arith, e))
window_of_bounds (some n) unit w message least e = ground (arith, e, least n refl)

choose_window_bounds :
    (h d : Option Json) (w : ℕ)
    → choose_window h d ≡ window w
    → (hour ≤ w) × (w ≤ max_window_hours * hour)
choose_window_bounds (some h) (some d) w e = absurd (ground (arith, e))
choose_window_bounds (some h) none w e =
    window_of_bounds (whole_positive_number h) 1 w _
      (λ n at. omega (arith, whole_positive_number_pos h n at)) e
choose_window_bounds none (some d) w e =
    window_of_bounds (whole_positive_number d) 24 w _
      (λ n at. omega (arith, whole_positive_number_pos d n at)) e
choose_window_bounds none none w e = ground (arith, e)

-- Whatever a client asks for: a window that get_smart_trend accepts is at least one hour and at most
-- the 2160 hours that the sampler keeps by default.
pub trend_window_bounds :
    (args : Dict Json) (w : ℕ)
    → trend_window args ≡ window w
    → (hour ≤ w) × (w ≤ max_window_hours * hour)
unfolding trend_window
trend_window_bounds args w e = choose_window_bounds (lookup "hours" args) (lookup "days" args) w e

-- The readings among the points, and the first and the last of a list.
abbrev pub readings : List TrendPoint → List TrendPoint
readings [] = []
readings (p ∷ rest) = if p.ok then p ∷ readings rest else readings rest

abbrev pub head {ℓ} : {A : Type ℓ} → List A → Option A
head [] = none
head (a ∷ rest) = some a

abbrev pub final {ℓ} : {A : Type ℓ} → List A → Option A
final [] = none
final (a ∷ rest) = elim (final rest) [ none ↦ some a | some b ↦ some b ]

abbrev or_else {ℓ} : {A : Type ℓ} → Option A → Option A → Option A
or_else none other = other
or_else (some a) other = some a

or_else-none {ℓ} : {A : Type ℓ} (o : Option A) → or_else o none ≡ o
or_else-none none = refl
or_else-none (some a) = refl

-- The loop from any place on.
record IsTallied (points : List TrendPoint) (t u : Tally) : Type 0 where
  samples : u.samples ≡ t.samples + length (readings points)
  total : u.samples + u.gaps ≡ t.samples + t.gaps + length points
  first_ok : u.first_ok ≡ or_else t.first_ok (head (readings points))
  last_ok : u.last_ok ≡ or_else (final (readings points)) t.last_ok

tally_all-IsTallied :
    (points : List TrendPoint) (t : Tally) → IsTallied points t (tally_all t points)
tally_all-IsTallied [] t = ground arith
tally_all-IsTallied (p ∷ points) t =
    let rest = tally_all-IsTallied points (tally_point t p) in ground (arith, rest)

-- The two points have numbers, and the first is below the second.
abbrev pub Rises : Option TrendPoint → Option TrendPoint → Type 0
Rises (some p) (some q) =
    (a : ℤ) × (b : ℤ) × (p.value ≡ some a) × (q.value ≡ some b) × (int_below a b ≡ true)
Rises _ _ = ⊥

rises : (o q : Option TrendPoint) → point_direction o q ≡ up → Rises o q
rises none q e = absurd (ground (arith, e))
rises (some p) none e = absurd (ground (arith, e))
rises (some p) (some q) e = elim (Option-cases p.value) [
  | inl f ↦ absurd (ground (arith, e, f))
  | inr (a, f) ↦ elim (Option-cases q.value) [
    | inl g ↦ absurd (ground (arith, e, f, g))
    | inr (b, g) ↦ (a, b, f, g, ground (arith, e, f, g))
  ]
]

pub record IsHonest (points : List TrendPoint) (s : Summary) : Type 0 where
  pub samples : s.sample_count ≡ length (readings points)
  pub total : s.sample_count + s.gap_count ≡ length points
  pub first : s.first ≡ head (readings points)
  pub last : s.last ≡ final (readings points)
  pub cautious :
      s.direction ≢ insufficient_data → (2 ≤ s.sample_count) × (s.gap_count ≤ s.sample_count)
  pub rising : s.direction ≡ up → Rises s.first s.last

-- The summary of a trend counts each point once, as a reading or as a gap, and reports the first and
-- the last reading. It names a direction only from two readings or more and with no more gaps than
-- readings; and where it says up, the first and the last reading are numbers and the last is greater.
pub trend_summary-IsHonest : (points : List TrendPoint) → IsHonest points (trend_summary points)
unfolding trend_summary
trend_summary-IsHonest points =
    let t = tally_all-IsTallied points empty_tally in
    let u = tally_all empty_tally points in
    record {
      samples = omega (arith, t.samples);
      total = omega (arith, t.total);
      first = t.first_ok;
      last = t.last_ok ∙ or_else-none (final (readings points));
      cautious = λ named. elim (Bool-cases (is_gap_heavy u)) [
        | inl heavy ↦ absurd (named (if_true _ _ heavy))
        | inr light ↦ ground (arith, light)
      ];
      rising = λ e. rises u.first_ok u.last_ok (ground (arith, e));
    }
