-- ===== src/Config/Texts.antt =====
-- Tests on the texts of a configuration (internal/config/config.go): checkDashboardSafeName,
-- containerNameRe, isLoopbackHost and parseDurationDefault. Durations are nanoseconds.
use server_assistant.Prelude.{
  ℕ, String, Bool, not, ◌&&◌, ◌||◌, [], ◌∷◌, str_eq, ◌==◌, leb, if◌then◌else◌, any, ◌*◌,
}
use server_assistant.Prelude.Int.{ℤ, pos, is_positive}
use server_assistant.Prelude.Chars.{codes}
use server_assistant.Config.Checked.{text, refused, Checked, good, ◌>>=◌, ◌>>◌, refuse_if}

abbrev pub is_empty : String → Bool
is_empty s = str_eq s ""

-- One of , \n \r " < >
abbrev pub breaks_dashboard : ℕ → Bool
breaks_dashboard c = c == 44 || (c == 10 || (c == 13 || (c == 34 || (c == 60 || c == 62))))

abbrev pub is_dashboard_safe : String → Bool
is_dashboard_safe name = not (any breaks_dashboard (codes name))

-- checkDashboardSafeName
abbrev pub check_dashboard_safe_name : String → Checked (Unit {0})
check_dashboard_safe_name name = refuse_if (any breaks_dashboard (codes name)) (
    refused "name %q: contains characters unsafe for dashboard wiring (one of ,\\n\\r\\\"<>)"
      (text name ∷ []))

-- [A-Za-z0-9_.-]
abbrev pub is_container_char : ℕ → Bool
is_container_char c =
    (leb 65 c && leb c 90)
    || ((leb 97 c && leb c 122) || ((leb 48 c && leb c 57) || (c == 95 || (c == 46 || c == 45))))

-- containerNameRe.MatchString: one or more characters of the set, and nothing else.
abbrev pub is_container_name : String → Bool
is_container_name name =
    not (is_empty name) && not (any (λ c. not (is_container_char c)) (codes name))

-- isLoopbackHost
abbrev pub is_loopback_host : String → Bool
is_loopback_host host = str_eq host "127.0.0.1" || (str_eq host "::1" || str_eq host "localhost")

abbrev pub milliseconds : ℕ → ℤ
milliseconds n = pos (n * 1000000)

abbrev pub seconds : ℕ → ℤ
seconds n = pos (n * 1000000000)

abbrev pub minutes : ℕ → ℤ
minutes n = seconds (n * 60)

abbrev pub hours : ℕ → ℤ
hours n = minutes (n * 60)

-- parseDurationDefault; `parse` is time.ParseDuration.
unfoldable pub parse_duration_default : (String → Checked ℤ) → String → ℤ → Checked ℤ
parse_duration_default parse v default = if is_empty v then good default else (do
  d ← parse v
  refuse_if (not (is_positive d)) (refused "must be positive, got %s" (text v ∷ []))
  good d)
