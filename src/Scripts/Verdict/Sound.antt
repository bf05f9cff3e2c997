-- ===== src/Scripts/Verdict/Sound.antt =====
-- What a verdict of internal/scripts/predicate.go says of the run.
use server_assistant.Prelude.{
  String, concat, ◌≡◌, refl, Bool, true, false, ◌||◌, if◌then◌else◌, ◌↔◌, Option, none, some, List,
  [], ◌∷◌, ◌++◌, All, arith, eq_iff, inl, inr, Bool-cases, str_eq,
}
use server_assistant.Prelude.Int.{ℤ, pos, int_eq}
use server_assistant.Scripts.Verdict.{
  Parsers, Opened, scanned, absent, unopened, contains_base, safe_readonly_binaries,
  violation_line_re, line_reasons, transcript_reasons, exec_path, is_allowed_path, exec_reasons,
  note_path, trace_reasons, exit_reasons, is_empty_list, verdict, unshimmed_mutation_reasons,
  parse_transcript,
}

-- The lines that the scanner handed out.
abbrev pub lines_of : Opened → List String
lines_of (scanned lines error) = lines
lines_of absent = []
lines_of (unopened why) = []

empty_append :
    (xs ys : List String)
    → is_empty_list (xs ++ ys) ≡ true
    → (is_empty_list xs ≡ true) × (is_empty_list ys ≡ true)
empty_append [] ys e = (refl, e)
empty_append (x ∷ xs) ys e = absurd (ground (arith, e))

append_empty :
    (xs ys : List String)
    → is_empty_list xs ≡ true
    → is_empty_list ys ≡ true
    → is_empty_list (xs ++ ys) ≡ true
append_empty [] ys e h = h
append_empty (x ∷ xs) ys e h = absurd (ground (arith, e))

some-injective : (a b : String) → some a ≡ some b → a ≡ b
some-injective a b e = cc

unblamed :
    (dup ok : Bool) (why : String)
    → is_empty_list (if dup || ok then [] else why ∷ []) ≡ true
    → dup ≡ false
    → ok ≡ true
unblamed true ok why e new = absurd (ground (arith, new))
unblamed false true why e new = refl
unblamed false false why e new = absurd (ground (arith, e))

module _ (go : Parsers) (shim_dir : String) where
  -- A line that executes a path executes one of the shims or a name of the allowlist.
  abbrev pub IsAllowedLine : String → Type 0
  IsAllowedLine line =
      (p : String)
      → exec_path go line ≡ some p
      → (go.has_prefix p (concat shim_dir "/") || contains_base safe_readonly_binaries (go.base p))
        ≡ true

  abbrev pub IsHarmless : String → Type 0
  IsHarmless line = go.find_submatch violation_line_re line ≡ none

  abbrev Allowed : String → Type 0
  Allowed p = is_allowed_path go shim_dir p ≡ true

  seen-Allowed :
      (seen : List String) (p : String) → All Allowed seen → contains_base seen p ≡ true → Allowed p
  seen-Allowed [] p all found = absurd (ground (arith, found))
  seen-Allowed (q ∷ seen) p all found = elim (Bool-cases (str_eq q p)) [
    | inl same ↦ rw (← (eq_iff q p).0 same) all.0
    | inr other ↦ seen-Allowed seen p all.1 (ground (arith, found, other))
  ]

  -- One line: what it adds is empty exactly if it is allowed, and then so is all that was seen.
  exec_reasons-Allowed :
      (seen : List String) (o : Option String)
      → All Allowed seen
      → is_empty_list (exec_reasons go shim_dir seen o) ≡ true
      → ((p : String) → o ≡ some p → Allowed p) × All Allowed (note_path go seen o)
  exec_reasons-Allowed seen none all e = ((λ p h. absurd (ground (arith, h))), all)
  exec_reasons-Allowed seen (some q) all e = elim (Bool-cases (contains_base seen q)) [
    | inl dup ↦
        let ok = seen-Allowed seen q all dup in
        ((λ p h. rw (← some-injective q p h) ok), simp dup all)
    | inr new ↦
        let ok : Allowed q = unblamed _ _ _ e new in
        ((λ p h. rw (← some-injective q p h) ok), simp new (ok, all))
  ]

  Allowed-exec_reasons :
      (seen : List String) (o : Option String)
      → ((p : String) → o ≡ some p → Allowed p)
      → is_empty_list (exec_reasons go shim_dir seen o) ≡ true
  Allowed-exec_reasons seen none ok = refl
  Allowed-exec_reasons seen (some q) ok = ground (arith, ok q refl)

  note_path-Allowed :
      (seen : List String) (o : Option String)
      → All Allowed seen
      → ((p : String) → o ≡ some p → Allowed p)
      → All Allowed (note_path go seen o)
  note_path-Allowed seen none all ok = all
  note_path-Allowed seen (some q) all ok = elim (Bool-cases (contains_base seen q)) [
    | inl dup ↦ simp dup all
    | inr new ↦ simp new (ok q refl, all)
  ]

  trace_reasons-IsAllowedLine :
      (seen lines : List String)
      → All Allowed seen
      → is_empty_list (trace_reasons go shim_dir seen lines) ≡ true
      → All IsAllowedLine lines
  unfolding trace_reasons
  trace_reasons-IsAllowedLine seen [] all e = tt
  trace_reasons-IsAllowedLine seen (line ∷ rest) all e =
      let o = exec_path go line in
      let both = empty_append (exec_reasons go shim_dir seen o) _ e in
      let first = exec_reasons-Allowed seen o all both.0 in
      (first.0, trace_reasons-IsAllowedLine (note_path go seen o) rest first.1 both.1)

  Allowed-trace_reasons :
      (seen lines : List String)
      → All Allowed seen
      → All IsAllowedLine lines
      → is_empty_list (trace_reasons go shim_dir seen lines) ≡ true
  unfolding trace_reasons
  Allowed-trace_reasons seen [] all ok = refl
  Allowed-trace_reasons seen (line ∷ rest) all ok =
      let o = exec_path go line in
      append_empty (exec_reasons go shim_dir seen o) _ (Allowed-exec_reasons seen o ok.0)
        (Allowed-trace_reasons (note_path go seen o) rest (note_path-Allowed seen o all ok.0) ok.1)

  line_reasons_lem :
      (o : Option (List String)) → (is_empty_list (line_reasons go o) ≡ true) ↔ (o ≡ none)
  line_reasons_lem none = ((λ e. refl), λ e. refl)
  line_reasons_lem (some m) = ((λ e. absurd (ground (arith, e))), λ e. absurd (ground (arith, e)))

  transcript_reasons-IsHarmless :
      (lines : List String)
      → (is_empty_list (transcript_reasons go lines) ≡ true) ↔ All IsHarmless lines
  unfolding transcript_reasons
  transcript_reasons-IsHarmless [] = ((λ e. tt), λ ok. refl)
  transcript_reasons-IsHarmless (line ∷ rest) =
      let h = line_reasons_lem (go.find_submatch violation_line_re line) in
      let t = transcript_reasons-IsHarmless rest in
      (
        (λ e.
            let b = empty_append (line_reasons go (go.find_submatch violation_line_re line)) _ e in
            (h.0 b.0, t.0 b.1)),
        λ ok. append_empty _ _ (h.1 ok.0) (t.1 ok.1),
      )

  exit_reasons_lem :
      (exit_code : ℤ) (timed_out : Bool)
      → (is_empty_list (exit_reasons go exit_code timed_out) ≡ true)
        ↔ ((timed_out ≡ false) × (int_eq exit_code (pos 0) ≡ true))
  exit_reasons_lem exit_code true =
      ((λ e. absurd (ground (arith, e))), λ h. absurd (ground (arith, h.0)))
  exit_reasons_lem exit_code false = ((λ e. (refl, ground (arith, e))), λ h. ground (arith, h.1))

  traced :
      (o : Opened)
      → (is_empty_list (unshimmed_mutation_reasons go o shim_dir).0 ≡ true)
        ↔ All IsAllowedLine (lines_of o)
  traced absent = ((λ e. tt), λ h. refl)
  traced (unopened why) = ((λ e. tt), λ h. refl)
  traced (scanned lines error) =
      (trace_reasons-IsAllowedLine [] lines tt, Allowed-trace_reasons [] lines tt)

  transcribed :
      (o : Opened)
      → (is_empty_list (parse_transcript go o).1.0 ≡ true) ↔ All IsHarmless (lines_of o)
  transcribed absent = ((λ e. tt), λ h. refl)
  transcribed (unopened why) = ((λ e. tt), λ h. refl)
  transcribed (scanned lines error) = transcript_reasons-IsHarmless lines

  -- A dry run is clean exactly if it ended in time with the exit code 0, each line of the trace that
  -- executes a path executes one of the shims or a name of the allowlist, however often it comes
  -- back, and no line of the transcript reports a violation. The lines are those that the scanner
  -- handed out before it ended or failed.
  pub verdict-approves_iff :
      (transcript strace : Opened) (exit_code : ℤ) (timed_out : Bool)
      → ((verdict go transcript strace shim_dir exit_code timed_out).is_clean ≡ true) ↔ (
          (timed_out ≡ false)
          × (int_eq exit_code (pos 0) ≡ true)
          × All IsAllowedLine (lines_of strace)
          × All IsHarmless (lines_of transcript))
  unfolding verdict
  verdict-approves_iff transcript strace exit_code timed_out =
      let b = traced strace in
      let c = transcribed transcript in
      let a = exit_reasons_lem exit_code timed_out in
      (
        (λ e.
            let x = empty_append (exit_reasons go exit_code timed_out) _ e in
            let y = empty_append (unshimmed_mutation_reasons go strace shim_dir).0 _ x.1 in
            let z = a.0 x.0 in (z.0, z.1, b.0 y.0, c.0 y.1)),
        λ (t, x, s, h). append_empty _ _ (a.1 (t, x)) (append_empty _ _ (b.1 s) (c.1 h)),
      )
