-- ===== src/Mcp/Dispatch.antt =====
-- The methods of the MCP endpoint: dispatch and its handlers in internal/mcp/server.go.
use server_assistant.Prelude.{
  String, concat, Bool, true, false, Option, none, some, List, [], ◌∷◌, str_eq, if◌then◌else◌,
}
use server_assistant.Prelude.Dict.{Dict, lookup}
use server_assistant.Mcp.{
  Json, flag, Code, invalid_params, method_not_found, internal_error, resource_not_found, RpcError,
  ToolResult, Handled, answered, misused, failed, Tool, contents, unread, Resource, Server,
}

-- The JSON library: json.Unmarshal of the parameters of tools/call (the name and the arguments) and
-- of resources/read (the uri), of the arguments, and json.Marshal. `none` is an error; an error of
-- the arguments has a text.
pub record Codec : Type 0 where
  pub call_params : String → Option (String × Option String)
  pub read_params : String → Option String
  pub arguments : String → Option (Dict Json)
  pub arguments_error : String → String

-- The result of a method, as far as the server gives it.
pub data Result : Type 0 where
  initialized : String → Result
  pong : Result
  tools_listed : List Tool → Result
  called : ToolResult → Result
  resources_listed : List Resource → Result
  read : Resource → String → Result
  refused : RpcError → Result

-- A call of a tool's handler.
pub record Invocation : Type 0 where
  pub tool : Tool
  pub args : Dict Json

-- A result with the handlers that were called for it.
abbrev pub Outcome : Type 0
Outcome = Result × List Invocation

abbrev pub refusal : Code → String → Outcome
refusal code message = (refused (record { code = code; message = message }), [])

abbrev pub has_arg : Dict Json → String → Bool
has_arg args name = elim (lookup name args) [ none ↦ false | some v ↦ true ]

-- boolArg
abbrev pub bool_arg : Dict Json → String → Bool
bool_arg args name = elim (lookup name args) [ some (flag b) ↦ b | _ ↦ false ]

-- The first required argument that is missing.
abbrev pub missing_arg : Dict Json → List String → Option String
missing_arg args [] = none
missing_arg args (name ∷ rest) =
    let next = missing_arg args rest in if has_arg args name then next else some name

-- The end of handleToolsCall.
abbrev pub tool_result : Handled → Result
tool_result (answered r) = called r
tool_result (misused message) = refused (record { code = invalid_params; message = message })
tool_result (failed err) = called (record { content = err; is_error = true })

-- handleToolsCall from the check of the required arguments on.
unfoldable pub call_with : Tool → Dict Json → Outcome
call_with tool args = elim (missing_arg args tool.required) [
  | some name ↦ refusal invalid_params (concat "missing required argument: " name)
  | none ↦ (
    tool_result (tool.handler args (bool_arg args "detail")),
    record { tool = tool; args = args } ∷ [],
  )
]

-- The arguments: none at all is an empty object.
abbrev pub parsed_arguments : Codec → Option String → Option (Dict Json)
parsed_arguments codec none = some []
parsed_arguments codec (some raw) = codec.arguments raw

abbrev pub raw_text : Option String → String
raw_text none = ""
raw_text (some raw) = raw

unfoldable pub call_tool : Codec → Option String → Tool → Outcome
call_tool codec raw tool = elim (parsed_arguments codec raw) [
  | none ↦
      refusal invalid_params (concat "invalid arguments: " (codec.arguments_error (raw_text raw)))
  | some args ↦ call_with tool args
]

abbrev pub call_named : Codec → Server → String × Option String → Outcome
call_named codec s (name, raw) =
    if str_eq name ""
    then refusal invalid_params "invalid params: a tool name is required"
    else elim (lookup name s.tools) [
      | none ↦ refusal invalid_params (concat "Unknown tool: " name)
      | some tool ↦ call_tool codec raw tool
    ]

abbrev pub call_parsed : Codec → Server → Option (String × Option String) → Outcome
call_parsed codec s none = refusal invalid_params "invalid params: a tool name is required"
call_parsed codec s (some call) = call_named codec s call

-- handleToolsCall
unfoldable pub handle_tools_call : Codec → Server → String → Outcome
handle_tools_call codec s params = call_parsed codec s (codec.call_params params)

-- The entries of a map in the order of a list of its keys; a missing key cannot occur.
abbrev pub in_order {ℓ} : {A : Type ℓ} → Dict A → List String → List A
in_order entries [] = []
in_order entries (name ∷ rest) = elim (lookup name entries) [
  | none ↦ in_order entries rest
  | some a ↦ a ∷ in_order entries rest
]

-- handleResourcesRead, with the uri parsed.
abbrev pub read_uri : Server → String → Result
read_uri s uri =
    if str_eq uri ""
    then refused (record { code = invalid_params; message = "invalid params: a uri is required" })
    else elim (lookup uri s.resources) [
      | none ↦ refused (record { code = resource_not_found; message = "Resource not found" })
      | some r ↦ elim r.handler [
        | contents body ↦ read r body
        | unread err ↦ refused (record { code = internal_error; message = err })
      ]
    ]

unfoldable pub handle_resources_read : Codec → Server → String → Result
handle_resources_read codec s params = elim (codec.read_params params) [
  | none ↦ refused (record { code = invalid_params; message = "invalid params: a uri is required" })
  | some uri ↦ read_uri s uri
]

-- The instructions of handleInitialize.
abbrev pub instructions : Server → String
instructions s =
    if str_eq s.dashboard_base_url ""
    then ""
    else concat "Mutating actions are not implemented yet; the dashboard at "
        (concat s.dashboard_base_url " is read-only alongside this endpoint.")

-- dispatch
unfoldable pub dispatch : Codec → Server → String → String → Outcome
dispatch codec s method params =
    if str_eq method "initialize"
    then (initialized (instructions s), [])
    else if str_eq method "ping"
    then (pong, [])
    else if str_eq method "tools/list"
    then (tools_listed (in_order s.tools s.tool_order), [])
    else if str_eq method "tools/call"
    then handle_tools_call codec s params
    else if str_eq method "resources/list"
    then (resources_listed (in_order s.resources s.resource_order), [])
    else if str_eq method "resources/read"
    then (handle_resources_read codec s params, [])
    else refusal method_not_found (concat "method not found: " method)
