-- ===== src/Tests/Surface.antt =====
-- Concrete runs of internal/tools, internal/mcp and internal/sampler.
use server_assistant.Prelude.{
  ℕ, ◌≤◌, String, Bool, true, false, none, some, List, [], ◌∷◌, All, str_eq, arith, if◌then◌else◌,
}
use server_assistant.Prelude.Int.{pos}
use server_assistant.Prelude.Dict.{Dict}
use server_assistant.Config.Checked.{Checked, good}
use server_assistant.Tools.{
  Format, container_status, container_status_cmd, container_logs, container_logs_cmd,
}
use server_assistant.Tools.Bounds.{IsConfined, tools-IsConfined}
use server_assistant.Mcp.{text, answered, Annotations, Tool, Server, empty_server}
use server_assistant.Mcp.Dispatch.{Codec}
use server_assistant.Mcp.Http.{Request, Wire, serve_http}
use server_assistant.Mcp.Access.{Reaches, serve_http-Reaches}
use server_assistant.Mcp.Catalog.{register_all, IsFaithful, register_all-IsFaithful}
use server_assistant.Mcp.Trends.{TrendPoint, trend_summary}
use server_assistant.Mcp.Trends.Honest.{IsHonest, trend_summary-IsHonest}
use server_assistant.Sampler.{SmartAnswer, attrs, unread, Cycle, run_sampler}
use server_assistant.Sampler.Steps
use server_assistant.Sampler.Honest.{run_sampler-All}
use server_assistant.Sampler.Transitions.{IsLog, run_sampler-IsLog}

abbrev format : Format
format = record {
  trim = λ s. s;
  cut = λ s. some (s, "");
  decimal = λ n. "50";
  stamp = λ n. "t";
  duration = λ n. "1s";
}

abbrev runner : String → Checked String
runner cmd = good "running|"

abbrev targets : Dict String
targets = ("plex", "plex-1") ∷ []

abbrev asked : Dict String
asked = ("service", "plex") ∷ []

tools-IsConfined_example :
    IsConfined targets asked container_status_cmd (container_status format runner targets asked)
    × ((n : ℕ) × (1 ≤ n)
        × (n ≤ 200)
        × IsConfined targets asked
            (container_logs_cmd format n)
            (container_logs format runner targets (pos 500) asked))
tools-IsConfined_example = tools-IsConfined format runner targets asked (pos 500)

abbrev hints : Annotations
hints = record { read_only = true; destructive = false; idempotent = true; open_world = false }

-- A tool that needs an id.
abbrev poll_tool : String → Tool
poll_tool category = record {
  name = "get_proposal";
  category = category;
  description = "";
  input_schema = none;
  required = "id" ∷ [];
  annotations = hints;
  handler = λ args detail. answered (record { content = "pending"; is_error = false });
}

abbrev host_tool : Tool
host_tool = record (poll_tool "host") { name = "get_host_info"; required = [] }

abbrev server : Server
server = register_all (poll_tool "proposals" ∷ host_tool ∷ []) (empty_server "" "secret")

-- The body "call" asks for the proposal p-1.
abbrev codec : Codec
codec = record {
  call_params = λ s. some ("get_proposal", some s);
  read_params = λ s. none;
  arguments = λ s. some (("id", text s) ∷ []);
  arguments_error = λ s. "";
}

abbrev wire : Wire
wire = record {
  cut_prefix = λ prefix s. if str_eq s "Bearer secret" then some "secret" else none;
  bytes = λ s. 4;
  envelope = λ s. some (record { id = "1"; method = "tools/call"; params = "p-1" });
  envelope_error = λ s. "";
}

abbrev request : String → Request
request authorization = record {
  method = "POST";
  authorization = authorization;
  body = some "call";
}

serve_http-Reaches_example :
    Reaches wire server
      (request "Bearer secret")
      (serve_http wire codec server (request "Bearer secret")).1
serve_http-Reaches_example = serve_http-Reaches wire codec server (request "Bearer secret")

abbrev tools : List Tool
tools = poll_tool "proposals" ∷ host_tool ∷ poll_tool "scripts" ∷ []

register_all-IsFaithful_example : IsFaithful tools (register_all tools (empty_server "" "secret"))
register_all-IsFaithful_example = register_all-IsFaithful tools "" "secret"

abbrev point : ℕ → Bool → TrendPoint
point at ok = record {
  at = at;
  value = if ok then some (pos at) else none;
  text = none;
  ok = ok;
  note = "";
}

abbrev points : List TrendPoint
points = point 1 true ∷ point 2 false ∷ point 3 true ∷ []

trend_summary-IsHonest_example : IsHonest points (trend_summary points)
trend_summary-IsHonest_example = trend_summary-IsHonest points

-- The array starts, then stops; its one disk is in standby the second time.
abbrev cycle : ℕ → String → SmartAnswer → Cycle
cycle now state answer = record {
  now = now;
  array = some (record {
    state = state;
    disks = record { name = "disk1"; device = "/dev/sdb"; used_bytes = pos 100 } ∷ [];
  });
  shares = some (record { name = "media"; used_bytes = pos 90 } ∷ []);
  smart = λ n device. answer;
  latest_ok = true;
  insert_ok = λ m. true;
  prune_ok = true;
}

abbrev cycles : List Cycle
cycles =
    cycle 1000 "STARTED" (
      attrs (record {
        temperature = some (pos 39);
        attributes =
            record { id = 194; raw_value = pos 90194313256 }
            ∷ record { id = 5; raw_value = pos 8 }
            ∷ [];
      }))
    ∷ cycle 2000 "STOPPED" (unread "disk in standby; not woken")
    ∷ []

run_sampler-All_example : All Steps.IsHonest (run_sampler 5000 cycles [])
run_sampler-All_example = run_sampler-All 5000 cycles [] tt

run_sampler-IsLog_example : IsLog (run_sampler 5000 cycles [])
run_sampler-IsLog_example = run_sampler-IsLog 5000 cycles (omega arith)
