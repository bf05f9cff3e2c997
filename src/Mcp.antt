-- ===== src/Mcp.antt =====
-- internal/mcp: the stateless MCP endpoint. The server, its catalog and one request: server.go,
-- auth.go, tool.go, jsonrpc.go. A reply comes back with the calls of tool handlers that it made.
pub mod Dispatch
pub mod Http
pub mod Access
pub mod Catalog
pub mod Trends
use server_assistant.Prelude.{
  ℕ, String, concat, Bool, true, false, not, ◌&&◌, ◌||◌, Option, none, some, List, [], ◌∷◌, ◌++◌,
  map, any, str_eq, ltb, if◌then◌else◌,
}
use server_assistant.Prelude.Int.{ℤ, pos, negsuc}
use server_assistant.Prelude.Dict.{Dict, lookup, insert}

abbrev pub max_request_bytes : ℕ
max_request_bytes = 65536

-- An argument of a call as encoding/json decodes it: a float64 that is whole, one that is not, a
-- string, a boolean, or anything else.
pub data Json : Type 0 where
  whole : ℤ → Json
  fraction : Json
  text : String → Json
  flag : Bool → Json
  other : Json

-- The error codes that the server issues.
pub data Code : Type 0 where
  parse_error invalid_request method_not_found invalid_params internal_error resource_not_found
        unauthorized :
      Code

-- The values of the Go constants; `negsuc n` is -(n + 1).
abbrev pub code_value : Code → ℤ
code_value parse_error = negsuc 32699
code_value invalid_request = negsuc 32599
code_value method_not_found = negsuc 32600
code_value invalid_params = negsuc 32601
code_value internal_error = negsuc 32602
code_value resource_not_found = negsuc 32001
code_value unauthorized = negsuc 32000

pub record RpcError : Type 0 where
  pub code : Code
  pub message : String

pub record ToolResult : Type 0 where
  pub content : String
  pub is_error : Bool

-- What a handler returns: a result, an InvalidParamsError, or another error's text.
pub data Handled : Type 0 where
  answered : ToolResult → Handled
  misused : String → Handled
  failed : String → Handled

pub record Annotations : Type 0 where
  pub read_only : Bool
  pub destructive : Bool
  pub idempotent : Bool
  pub open_world : Bool

-- `input_schema` is the JSON text of the schema; what a handler meets outside is part of it.
pub record Tool : Type 0 where
  pub name : String
  pub category : String
  pub description : String
  pub input_schema : Option String
  pub required : List String
  pub annotations : Annotations
  pub handler : Dict Json → Bool → Handled

-- The handler of a resource returns a text or an error.
pub data Read : Type 0 where
  contents : String → Read
  unread : String → Read

pub record Resource : Type 0 where
  pub uri : String
  pub name : String
  pub description : String
  pub mime_type : String
  pub handler : Read

pub record Server : Type 0 where
  pub dashboard_base_url : String
  pub auth_token : String
  pub tools : Dict Tool
  pub tool_order : List String
  pub resources : Dict Resource
  pub resource_order : List String

-- Register
unfoldable pub register : Tool → Server → Server
register t s = record s {
  tools = insert t.name t s.tools;
  tool_order = elim (lookup t.name s.tools) [
    | none ↦ s.tool_order ++ t.name ∷ []
    | some old ↦ s.tool_order
  ];
}

-- RegisterResource
unfoldable pub register_resource : Resource → Server → Server
register_resource r s = record s {
  resources = insert r.uri r s.resources;
  resource_order = elim (lookup r.uri s.resources) [
    | none ↦ s.resource_order ++ r.uri ∷ []
    | some old ↦ s.resource_order
  ];
}

-- NewServer before its registrations.
abbrev pub empty_server : String → String → Server
empty_server dashboard_base_url auth_token = record {
  dashboard_base_url = dashboard_base_url;
  auth_token = auth_token;
  tools = [];
  tool_order = [];
  resources = [];
  resource_order = [];
}
