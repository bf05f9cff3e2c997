-- ===== src/Tests/Catalog.antt =====
-- Concrete runs of internal/commands/commands.go.
use Prim.Native.String.{String, char_at}
use Prim.Native.Char.{Char, code}
use text.Mathlib.TextLemmas.{nil-append, cons-append}
use server_assistant.Prelude.{
  ◌≡◌, refl, ap, ◌∙◌, Bool, true, false, none, [], ◌∷◌, ◌==◌, ◌||◌, concat, if◌then◌else◌, arith,
}
use server_assistant.Commands.{
  Source, CutsAtColon, command_of, IsConfined, run_command, run_command-IsConfined,
  run_command_catalog,
}

-- strings.Cut at a colon.
abbrev prefixed : Char → String × String × Bool → String × String × Bool
prefixed c (before, after, found) = (String.◌∷◌ c before, after, found)

unfoldable cut_at_colon : String → String × String × Bool
cut_at_colon String.[] = ("", "", false)
cut_at_colon (String.◌∷◌ c s) =
    let rest = cut_at_colon s in if code c == 58 then ("", s, true) else prefixed c rest

unfoldable has_colon : String → Bool
has_colon String.[] = false
has_colon (String.◌∷◌ c s) = code c == 58 || has_colon s

abbrev colon : Char
colon = char_at ":" 0

colon_lem : (after : String) → concat ":" after ≡ String.◌∷◌ colon after
colon_lem after = cons-append colon "" after ∙ ap (String.◌∷◌ colon) (nil-append after)

cut_at_colon_lem :
    (before after : String)
    → has_colon before ≡ false
    → cut_at_colon (concat before (concat ":" after)) ≡ (before, after, true)
unfolding cut_at_colon has_colon
cut_at_colon_lem String.[] after h =
    ap cut_at_colon (nil-append (concat ":" after) ∙ colon_lem after)
cut_at_colon_lem (String.◌∷◌ c s) after h =
    let rest = cut_at_colon_lem s after (ground (arith, h)) in
    let here : (code c == 58) ≡ false = ground (arith, h) in
    simp (nil-append, cons-append, here, rest) refl

cuts : CutsAtColon cut_at_colon
unfolding has_colon
cuts rest = cut_at_colon_lem "restart-container" rest refl

abbrev plex_source : Source
plex_source = record {
  allow_restart = "sonarr" ∷ "plex" ∷ [];
  cut = cut_at_colon;
  quote = λ s. s;
  restart = λ name. none;
}

run_command-IsConfined_example :
    IsConfined plex_source (run_command plex_source "restart-container:plex" 3 5)
run_command-IsConfined_example = run_command-IsConfined plex_source "restart-container:plex" 3 5

run_command_catalog_example : (run_command plex_source (command_of "plex").id 3 5).1 ≡ "plex" ∷ []
run_command_catalog_example = run_command_catalog plex_source "plex" 3 5 cuts refl refl
