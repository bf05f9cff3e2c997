-- ===== src/Scripts/Diff.antt =====
-- diffSummary and countLines of internal/scripts/registry.go.
use Prim.Native.String.{String, [], ◌∷◌, ◌++◌, len}
use Prim.Native.Char.{code}
use server_assistant.Prelude.{ℕ, suc, ◌==◌, if◌then◌else◌}

-- The line feeds among the characters.
abbrev pub line_feeds : String → ℕ
line_feeds [] = 0
line_feeds (c ∷ s) = let rest = line_feeds s in if code c == 10 then suc rest else rest

abbrev pub count_lines : String → ℕ
count_lines s = suc (line_feeds s)

-- `decimal` is the verb %d of fmt.
abbrev pub diff_summary : (ℕ → String) → String → String → String
diff_summary decimal old_body new_body =
    decimal (len old_body)
    ++ (" -> "
        ++ (decimal (len new_body)
            ++ (" bytes, "
                ++ (decimal (count_lines old_body)
                    ++ (" -> " ++ (decimal (count_lines new_body) ++ " lines"))))))
