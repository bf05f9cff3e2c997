-- ===== src/Mcp/Http.antt =====
-- One HTTP request to the MCP endpoint: serveHTTP, checkAuth and handlePost of internal/mcp.
use server_assistant.Prelude.{
  ℕ, String, concat, Bool, false, not, ◌&&◌, ◌||◌, Option, none, some, List, [], str_eq, ltb,
  if◌then◌else◌,
}
use server_assistant.Mcp.{
  Code, parse_error, invalid_request, unauthorized, Server, max_request_bytes,
}
use server_assistant.Mcp.Dispatch.{Codec, Result, refused, Invocation, dispatch}

-- `body` is what io.ReadAll returns of at most max_request_bytes + 1 bytes; `none` is an error.
pub record Request : Type 0 where
  pub method : String
  pub authorization : String
  pub body : Option String

-- The JSON-RPC envelope; `id` and `params` are raw JSON, "" where absent.
pub record RpcRequest : Type 0 where
  pub id : String
  pub method : String
  pub params : String

-- Go's library: strings.HasPrefix with TrimPrefix, the length of a text in bytes, and
-- json.Unmarshal of the envelope with its error.
pub record Wire : Type 0 where
  pub cut_prefix : String → String → Option String
  pub bytes : String → ℕ
  pub envelope : String → Option RpcRequest
  pub envelope_error : String → String

-- What is written: a plain error with its status, 202 without a body, or a JSON-RPC response with
-- its status and id.
pub data Reply : Type 0 where
  plain : ℕ → String → Reply
  acknowledged : Reply
  responded : ℕ → String → Result → Reply

abbrev pub bearer_prefix : String
bearer_prefix = "Bearer "

-- checkAuth
unfoldable pub check_auth : Wire → Server → Request → Bool
check_auth wire s r = elim (wire.cut_prefix bearer_prefix r.authorization) [
  | none ↦ false
  | some provided ↦ str_eq provided s.auth_token
]

-- writeUnauthorized
abbrev pub write_unauthorized : Reply
write_unauthorized = responded 401 "null" (
    refused
      (record { code = unauthorized; message = "unauthorized: missing or invalid bearer token" }))

-- writeError
abbrev pub write_error : String → Code → String → Reply
write_error id code message =
    responded 200 (if str_eq id "" then "null" else id)
      (refused (record { code = code; message = message }))

-- handlePost, with the envelope parsed.
unfoldable pub handle_envelope : Codec → Server → RpcRequest → Reply × List Invocation
handle_envelope codec s req =
    if str_eq req.method ""
    then (write_error req.id invalid_request "missing method", [])
    else if str_eq req.id "" || str_eq req.id "null"
    then (acknowledged, [])
    else let (result, calls) = dispatch codec s req.method req.params in
      (responded 200 req.id result, calls)

-- handlePost after json.Unmarshal.
abbrev pub handle_decoded :
    Wire → Codec → Server → String → Option RpcRequest → Reply × List Invocation
handle_decoded wire codec s body none =
    (write_error "" parse_error (concat "parse error: " (wire.envelope_error body)), [])
handle_decoded wire codec s body (some req) = handle_envelope codec s req

-- handlePost after io.ReadAll.
abbrev pub handle_body : Wire → Codec → Server → Option String → Reply × List Invocation
handle_body wire codec s none = (plain 400 "failed to read request body", [])
handle_body wire codec s (some body) =
    if ltb max_request_bytes (wire.bytes body)
    then (plain 413 "request body too large", [])
    else handle_decoded wire codec s body (wire.envelope body)

unfoldable pub handle_post : Wire → Codec → Server → Request → Reply × List Invocation
handle_post wire codec s r = handle_body wire codec s r.body

-- serveHTTP
unfoldable pub serve_http : Wire → Codec → Server → Request → Reply × List Invocation
serve_http wire codec s r =
    if not (str_eq s.auth_token "") && not (check_auth wire s r)
    then (write_unauthorized, [])
    else if not (str_eq r.method "POST")
    then (plain 405 "method not allowed", [])
    else handle_post wire codec s r
