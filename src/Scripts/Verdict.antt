-- ===== src/Scripts/Verdict.antt =====
-- internal/scripts/predicate.go and check.go: the verdict on a dry run, read off the transcript of
-- the shims and off the trace of strace.
pub mod Sound
use server_assistant.Prelude.{
  ℕ, String, concat, Bool, true, false, not, ◌||◌, Option, none, some, List, [], ◌∷◌, ◌++◌, any,
  get_elem?, str_eq, inl, inr, ◌⊎◌, if◌then◌else◌,
}
use server_assistant.Prelude.Int.{ℤ, pos, int_eq}
use server_assistant.Scripts.Domain.{TranscriptEntry}
use server_assistant.Scripts.Store.{DryRun}

-- FindStringSubmatch of a pattern, time.Parse in the layout of the shims, Atoi, filepath.Base,
-- strings.HasPrefix of a text and its prefix, and the verbs %q and %d.
pub record Parsers : Type 0 where
  pub find_submatch : String → String → Option (List String)
  pub parse_time : String → ℕ
  pub atoi : String → ℕ
  pub base : String → String
  pub has_prefix : String → String → Bool
  pub quote : String → String
  pub decimal : ℤ → String

-- What bufio.Scanner makes of a file: its lines and the error that ended them, if any.
pub data Opened : Type 0 where
  scanned : List String → Option String → Opened
  absent : Opened
  unopened : String → Opened

abbrev pub mutating_binaries : List String
mutating_binaries =
    "docker" ∷ "rm" ∷ "mv" ∷ "cp" ∷ "chmod" ∷ "chown" ∷ "mkfs" ∷ "dd" ∷ "rsync" ∷ "ln" ∷ "tee"
    ∷ "truncate" ∷ "mkdir" ∷ []

abbrev pub safe_readonly_binaries : List String
safe_readonly_binaries =
    "bash" ∷ "sh" ∷ "cat" ∷ "ls" ∷ "grep" ∷ "egrep" ∷ "fgrep" ∷ "find" ∷ "echo" ∷ "printf" ∷ "date"
    ∷ "sleep" ∷ "test" ∷ "[" ∷ "awk" ∷ "sed" ∷ "curl" ∷ "head" ∷ "tail" ∷ "wc" ∷ "sort" ∷ "uniq"
    ∷ "basename" ∷ "dirname" ∷ "hostname" ∷ "id" ∷ "whoami" ∷ "true" ∷ "false" ∷ "stat" ∷ "du"
    ∷ "df" ∷ "ps" ∷ "pgrep" ∷ "jq" ∷ "mountpoint" ∷ "cut" ∷ "xargs" ∷ "tr" ∷ "flock" ∷ "logger"
    ∷ "timeout" ∷ "realpath" ∷ []

abbrev pub contains_base : List String → String → Bool
contains_base list base = any (λ s. str_eq s base) list

abbrev pub violation_line_re : String
violation_line_re =
    "^\\[([^]]+)]\\s+(\\d+)\\s+VIOLATION\\s+cmd=(\\S+)\\s+target=(\\S+)\\s+reason=(\\S+)$"

abbrev pub cmd_line_re : String
cmd_line_re = "^\\[([^]]+)]\\s+(\\d+)\\s+CMD\\s+(.*)$"

abbrev pub execve_re : String
execve_re = "execve\\(\"([^\"]+)\""

-- m[i]
abbrev group_or : Option String → String
group_or none = ""
group_or (some g) = g

abbrev pub group : ℕ → List String → String
group i m = group_or (get_elem? m i)

abbrev pub is_empty_list {ℓ} : {A : Type ℓ} → List A → Bool
is_empty_list [] = true
is_empty_list (a ∷ rest) = false

module _ (go : Parsers) where
  abbrev entry_of : String → String → List String → TranscriptEntry
  entry_of kind raw m = record {
    time = go.parse_time (group 1 m);
    pid = go.atoi (group 2 m);
    kind = kind;
    raw = raw;
  }

  abbrev violation_reason : List String → String
  violation_reason m =
      concat "(c) cmd=" (
        concat (group 3 m) (concat " target=" (concat (group 4 m) (concat " reason=" (group 5 m)))))

  -- One line of the transcript: its entry and its reason, by the first pattern that matches.
  abbrev pub line_entries :
      String → Option (List String) → Option (List String) → List TranscriptEntry
  line_entries line (some m) c = entry_of "VIOLATION" line m ∷ []
  line_entries line none (some m) = entry_of "CMD" (group 3 m) m ∷ []
  line_entries line none none = []

  abbrev pub line_reasons : Option (List String) → List String
  line_reasons (some m) = violation_reason m ∷ []
  line_reasons none = []

  unfoldable pub transcript_entries : List String → List TranscriptEntry
  transcript_entries [] = []
  transcript_entries (line ∷ rest) =
      line_entries line (go.find_submatch violation_line_re line)
        (go.find_submatch cmd_line_re line)
      ++ transcript_entries rest

  unfoldable pub transcript_reasons : List String → List String
  transcript_reasons [] = []
  transcript_reasons (line ∷ rest) =
      line_reasons (go.find_submatch violation_line_re line) ++ transcript_reasons rest

  abbrev scan_error : Option String → Option String
  scan_error none = none
  scan_error (some why) = some (concat "scan transcript: " why)

  -- parseTranscript: the entries, the reasons and the error.
  abbrev pub parse_transcript : Opened → List TranscriptEntry × (List String × Option String)
  parse_transcript absent = ([], ([], none))
  parse_transcript (unopened why) = ([], ([], some (concat "open transcript: " why)))
  parse_transcript (scanned lines error) =
      (transcript_entries lines, (transcript_reasons lines, scan_error error))

  -- m[1] of execveRE
  abbrev pub path_in : Option (List String) → Option String
  path_in none = none
  path_in (some m) = some (group 1 m)

  abbrev pub exec_path : String → Option String
  exec_path line = path_in (go.find_submatch execve_re line)

  -- A path of the shims, or a name of the allowlist.
  abbrev pub is_allowed_path : String → String → Bool
  is_allowed_path shim_dir p =
      go.has_prefix p (concat shim_dir "/") || contains_base safe_readonly_binaries (go.base p)

  abbrev bypass_reason : String → String
  bypass_reason p =
      if contains_base mutating_binaries (go.base p)
      then concat "(b) shimmed command " (
          concat (go.quote (go.base p)) (
            concat " was invoked via a path outside the shim dir ("
              (concat p ") — PATH-shim bypass")))
      else concat "(b) unshimmed binary invoked: "
          (concat p " (not on the read-only-safe allowlist, not a known-mutating shim)")

  -- The reasons that one line adds, and the paths seen after it.
  abbrev pub exec_reasons : String → List String → Option String → List String
  exec_reasons shim_dir seen none = []
  exec_reasons shim_dir seen (some p) =
      if contains_base seen p || is_allowed_path shim_dir p then [] else bypass_reason p ∷ []

  abbrev pub note_path : List String → Option String → List String
  note_path seen none = seen
  note_path seen (some p) = if contains_base seen p then seen else p ∷ seen

  unfoldable pub trace_reasons : String → List String → List String → List String
  trace_reasons shim_dir seen [] = []
  trace_reasons shim_dir seen (line ∷ rest) =
      exec_reasons shim_dir seen (exec_path line)
      ++ trace_reasons shim_dir (note_path seen (exec_path line)) rest

  -- unshimmedMutationReasons: the reasons, and whether there was a trace.
  abbrev pub unshimmed_mutation_reasons : Opened → String → List String × Bool
  unshimmed_mutation_reasons absent shim_dir = ([], false)
  unshimmed_mutation_reasons (unopened why) shim_dir = ([], false)
  unshimmed_mutation_reasons (scanned lines error) shim_dir =
      (trace_reasons shim_dir [] lines, not (is_empty_list lines))

  abbrev pub exit_reasons : ℤ → Bool → List String
  exit_reasons exit_code timed_out =
      if timed_out
      then "(a) did not terminate within the timeout (script was killed) — a dry run that never finishes proves nothing"
        ∷ []
      else if not (int_eq exit_code (pos 0))
      then concat "(a) script exited nonzero: " (go.decimal exit_code) ∷ []
      else []

  abbrev pub trace_warnings : Bool → List String
  trace_warnings saw_trace =
      if not saw_trace
      then "ground-truth exec trace unavailable (strace missing or produced no output): absolute-path bypass of the PATH shims cannot be detected for this run"
        ∷ []
      else []

  unfoldable pub verdict : Opened → Opened → String → ℤ → Bool → DryRun
  verdict transcript strace shim_dir exit_code timed_out =
      let b = unshimmed_mutation_reasons strace shim_dir in
      let c = parse_transcript transcript in
      let reasons = exit_reasons exit_code timed_out ++ (b.0 ++ c.1.0) in
      record {
        is_clean = is_empty_list reasons;
        reasons = reasons;
        warnings = trace_warnings b.1;
        transcript = c.0;
      }

pub record CheckResult : Type 0 where
  pub valid : Bool
  pub reasons : List String
  pub warnings : List String

-- Check, with what DryRun returned: an error or its result.
unfoldable pub check_dry_run : String ⊎ DryRun → String ⊎ CheckResult
check_dry_run (inl why) = inl why
check_dry_run (inr res) =
    inr (record { valid = res.is_clean; reasons = res.reasons; warnings = res.warnings })
