-- ===== src/Config/Library.antt =====
-- What internal/config asks of Go's library, of the YAML library and of the machine: parameters.
use server_assistant.Prelude.{String, Option, List}
use server_assistant.Prelude.Int.{ℤ}
use server_assistant.Config.Checked.{Checked}
use server_assistant.Config.Records.{Config, Url}

-- time.ParseDuration, url.Parse, strings.ToLower of strings.TrimSpace, os.ReadFile, yaml.Unmarshal
-- and os.LookupEnv. os.Expand asks for the variables `references s` of a text, in this order, and
-- puts what it is told in their place. `sorted` is sort.Strings.
pub record Library : Type 0 where
  pub parse_duration : String → Checked ℤ
  pub parse_url : String → Option Url
  pub fold : String → String
  pub read_file : String → Checked String
  pub unmarshal : String → Checked Config
  pub lookup_env : String → Option String
  pub references : String → List String
  pub expand : (String → String) → String → String
  pub sorted : List String → List String
