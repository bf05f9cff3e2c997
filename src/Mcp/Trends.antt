-- ===== src/Mcp/Trends.antt =====
-- internal/mcp/tools_trends.go: the window of a trend and its summary. The values that the sampler
-- stores are whole numbers; a float64 is modelled by the integer that it holds.
pub mod Honest
use mathlib.Core.List.{foldl, filter}
use server_assistant.Prelude.{
  ℕ, ◌+◌, ◌*◌, ◌-◌, ◌≤◌, ◌≡◌, refl, String, Bool, true, false, not, ◌&&◌, ◌||◌, Option, none, some,
  List, [], ◌∷◌, ◌++◌, arith, any, count, length, str_eq, ltb, leb, if◌then◌else◌, sym, ap, ◌∙◌,
}
use server_assistant.Prelude.Int.{ℤ, pos, negsuc, is_positive, to_nat}
use server_assistant.Prelude.Dict.{Dict, lookup}
use server_assistant.Config.Blocks.{contains}
use server_assistant.Mcp.{Json, whole}

abbrev pub default_window_hours : ℕ
default_window_hours = 24

abbrev pub max_window_hours : ℕ
max_window_hours = 90 * 24

abbrev pub hour : ℕ
hour = 3600000000000

-- wholePositiveNumber
abbrev pub whole_positive_number : Json → Option ℕ
whole_positive_number (whole n) = if is_positive n then some (to_nat n) else none
whole_positive_number _ = none

-- What trendWindow returns: a duration in nanoseconds, or the message of an InvalidParamsError.
pub data Window : Type 0 where
  window : ℕ → Window
  malformed : String → Window

-- The end of trendWindow: the bound, and hours to a duration.
abbrev pub bounded_window : ℕ → Window
bounded_window hours =
    if ltb max_window_hours hours
    then malformed
        "window exceeds the sampler's 2160h (90d) retention; ask for a smaller hours/days value"
    else window (hours * hour)

abbrev pub window_of : Option ℕ → ℕ → String → Window
window_of none unit message = malformed message
window_of (some n) unit message = bounded_window (n * unit)

abbrev pub choose_window : Option Json → Option Json → Window
choose_window (some h) (some d) = malformed "provide at most one of hours or days, not both"
choose_window (some h) none =
    window_of (whole_positive_number h) 1 "hours must be a positive whole number"
choose_window none (some d) =
    window_of (whole_positive_number d) 24 "days must be a positive whole number"
choose_window none none = bounded_window default_window_hours

-- trendWindow
unfoldable pub trend_window : Dict Json → Window
trend_window args = choose_window (lookup "hours" args) (lookup "days" args)

pub record TrendPoint : Type 0 where
  pub at : ℕ
  pub value : Option ℤ
  pub text : Option String
  pub ok : Bool
  pub note : String

pub data Direction : Type 0 where
  insufficient_data up down flat unchanged changed : Direction

-- The map that trendSummaryView fills, without the texts that repeat its arguments and counts.
pub record Summary : Type 0 where
  pub sample_count : ℕ
  pub gap_count : ℕ
  pub gap_heavy : Bool
  pub first : Option TrendPoint
  pub last : Option TrendPoint
  pub direction : Direction

-- The variables of the loop.
pub record Tally : Type 0 where
  pub samples : ℕ
  pub gaps : ℕ
  pub first_ok : Option TrendPoint
  pub last_ok : Option TrendPoint

abbrev pub or_first : Option TrendPoint → TrendPoint → TrendPoint
or_first none p = p
or_first (some q) p = q

-- The body of the loop.
abbrev pub tally_point : Tally → TrendPoint → Tally
tally_point t p = if not p.ok then record t { gaps = t.gaps + 1 } else record t {
  samples = t.samples + 1;
  first_ok = some (or_first t.first_ok p);
  last_ok = some p;
}

abbrev pub tally_all : Tally → List TrendPoint → Tally
tally_all = foldl tally_point

-- a < b on the integers.
abbrev pub int_below : ℤ → ℤ → Bool
int_below (pos a) (pos b) = ltb a b
int_below (pos a) (negsuc b) = false
int_below (negsuc a) (pos b) = true
int_below (negsuc a) (negsuc b) = ltb b a

-- The sign of last - first.
abbrev pub number_direction : ℤ → ℤ → Direction
number_direction first last =
    if int_below first last then up else if int_below last first then down else flat

abbrev pub text_direction : Option String → Option String → Direction
text_direction (some a) (some b) = if str_eq a b then unchanged else changed
text_direction _ _ = insufficient_data

abbrev pub value_direction : Option ℤ → Option ℤ → Option String → Option String → Direction
value_direction (some a) (some b) s t = number_direction a b
value_direction (some a) none s t = text_direction s t
value_direction none v s t = text_direction s t

abbrev pub point_direction : Option TrendPoint → Option TrendPoint → Direction
point_direction (some p) (some q) = value_direction p.value q.value p.text q.text
point_direction _ _ = insufficient_data

abbrev pub is_gap_heavy : Tally → Bool
is_gap_heavy t = ltb t.samples 2 || ltb t.samples t.gaps

abbrev pub empty_tally : Tally
empty_tally = record { samples = 0; gaps = 0; first_ok = none; last_ok = none }

abbrev pub summary_of : Tally → Summary
summary_of t = record {
  sample_count = t.samples;
  gap_count = t.gaps;
  gap_heavy = is_gap_heavy t;
  first = t.first_ok;
  last = t.last_ok;
  direction = if is_gap_heavy t then insufficient_data else point_direction t.first_ok t.last_ok;
}

-- trendSummaryView
unfoldable pub trend_summary : List TrendPoint → Summary
trend_summary points = summary_of (tally_all empty_tally points)
