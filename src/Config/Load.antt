-- ===== src/Config/Load.antt =====
-- FileSource.Load of internal/config/config.go.
use server_assistant.Prelude.{String, [], ◌∷◌}
use server_assistant.Config.Checked.{text, wrapped, Checked, ◌>>=◌, within}
use server_assistant.Config.Records.{Config}
use server_assistant.Config.Library.{Library}
use server_assistant.Config.Secrets.{resolve_secrets}
use server_assistant.Config.Validate.{validate}

unfoldable pub load : Library → String → Checked Config
load lib path = do
  raw ← within (wrapped "read config %s: %w" (text path ∷ [])) (lib.read_file path)
  c ← within (wrapped "parse config %s: %w" (text path ∷ [])) (lib.unmarshal raw)
  expanded ← within (wrapped "invalid config %s: %w" (text path ∷ [])) (resolve_secrets lib c)
  within (wrapped "invalid config %s: %w" (text path ∷ [])) (validate lib expanded)
