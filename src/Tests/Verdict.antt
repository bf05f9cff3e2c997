-- ===== src/Tests/Verdict.antt =====
-- Concrete verdicts of internal/scripts/predicate.go.
use server_assistant.Prelude.{
  ℕ, String, concat, ◌≡◌, refl, Bool, true, false, ◌↔◌, Option, none, some, List, [], ◌∷◌, ◌==◌,
  str_eq, All, inr, if◌then◌else◌,
}
use server_assistant.Prelude.Int.{pos, int_eq}
use server_assistant.Prelude.Chars.{codes}
use server_assistant.Scripts.Verdict.{
  Parsers, Opened, scanned, absent, execve_re, violation_line_re, verdict, trace_reasons,
  transcript_reasons, check_dry_run,
}
use server_assistant.Scripts.Verdict.Sound.{
  lines_of, IsAllowedLine, IsHarmless, verdict-approves_iff,
}

abbrev starts : List ℕ → List ℕ → Bool
starts xs [] = true
starts [] (y ∷ ys) = false
starts (x ∷ xs) (y ∷ ys) = if x == y then starts xs ys else false

abbrev found_in : String → String → Option (List String)
found_in re line =
    if str_eq re execve_re
    then if str_eq line "7 execve(\"/shim/rm\")"
      then some ("" ∷ "/shim/rm" ∷ [])
      else if str_eq line "7 execve(\"/bin/rm\")"
      then some ("" ∷ "/bin/rm" ∷ [])
      else if str_eq line "7 execve(\"/bin/cat\")"
      then some ("" ∷ "/bin/cat" ∷ [])
      else none
    else if str_eq re violation_line_re
    then if str_eq line "[t] 7 VIOLATION cmd=rm target=/boot/x reason=boot"
      then some ("" ∷ "t" ∷ "7" ∷ "rm" ∷ "/boot/x" ∷ "boot" ∷ [])
      else none
    else if str_eq line "[t] 7 CMD rm /tmp/x"
    then some ("" ∷ "t" ∷ "7" ∷ "rm /tmp/x" ∷ [])
    else none

abbrev parsers : Parsers
parsers = record {
  find_submatch = found_in;
  parse_time = λ s. 1000;
  atoi = λ s. 7;
  base = λ p. if str_eq p "/bin/cat" then "cat" else "rm";
  has_prefix = λ s prefix. starts (codes s) (codes prefix);
  quote = λ s. concat "\"" (concat s "\"");
  decimal = λ n. if int_eq n (pos 1) then "1" else "?";
}

abbrev shimmed : Opened
shimmed =
    scanned ("7 execve(\"/shim/rm\")" ∷ "7 execve(\"/bin/cat\")" ∷ "7 execve(\"/shim/rm\")" ∷ [])
      none

abbrev logged : Opened
logged = scanned ("[t] 7 CMD rm /tmp/x" ∷ []) none

abbrev violation : String
violation = "[t] 7 VIOLATION cmd=rm target=/boot/x reason=boot"

verdict_clean : (verdict parsers logged shimmed "/shim" (pos 0) false).is_clean ≡ true
unfolding verdict trace_reasons transcript_reasons
verdict_clean = refl

verdict_bypass :
    (verdict parsers logged
      (scanned ("7 execve(\"/bin/rm\")" ∷ "7 execve(\"/bin/rm\")" ∷ []) none)
      "/shim"
      (pos 1)
      false).reasons
    ≡ "(a) script exited nonzero: 1"
      ∷ "(b) shimmed command \"rm\" was invoked via a path outside the shim dir (/bin/rm) — PATH-shim bypass"
      ∷ []
unfolding verdict trace_reasons transcript_reasons
verdict_bypass = refl

verdict_forbidden_write :
    (verdict parsers (scanned (violation ∷ []) none) absent "/shim" (pos 0) false).reasons
    ≡ "(c) cmd=rm target=/boot/x reason=boot" ∷ []
unfolding verdict trace_reasons transcript_reasons
verdict_forbidden_write = refl

-- A transcript that the scanner fails on counts as one without violations.
verdict_unread :
    (verdict parsers (scanned [] (some "token too long")) shimmed "/shim" (pos 0) false).is_clean
    ≡ true
unfolding verdict trace_reasons transcript_reasons
verdict_unread = refl

check_reports :
    check_dry_run (inr (verdict parsers logged absent "/shim" (pos 0) true))
    ≡ inr (record {
      valid = false;
      reasons =
          "(a) did not terminate within the timeout (script was killed) — a dry run that never finishes proves nothing"
          ∷ [];
      warnings =
          "ground-truth exec trace unavailable (strace missing or produced no output): absolute-path bypass of the PATH shims cannot be detected for this run"
          ∷ [];
    })
unfolding verdict transcript_reasons check_dry_run
check_reports = refl

verdict-approves_iff_example :
    ((verdict parsers logged shimmed "/shim" (pos 0) false).is_clean ≡ true) ↔ (
      (false ≡ false)
      × (int_eq (pos 0) (pos 0) ≡ true)
      × All (IsAllowedLine parsers "/shim") (lines_of shimmed)
      × All (IsHarmless parsers "/shim") (lines_of logged))
verdict-approves_iff_example = verdict-approves_iff parsers "/shim" logged shimmed (pos 0) false
