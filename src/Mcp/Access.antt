-- ===== src/Mcp/Access.antt =====
-- Which requests to the MCP endpoint of internal/mcp reach the handler of a tool, and with what.
use server_assistant.Prelude.{
  String, ◌≡◌, ◌≤◌, ◌⊎◌, ◌||◌, refl, true, false, not, ◌&&◌, Option, none, some, List, [], ◌∷◌,
  arith, All, length, ltb, str_eq, eq_iff, Bool-cases, Option-cases, inl, inr, if◌then◌else◌,
}
use server_assistant.Prelude.Dict.{Dict, lookup}
use server_assistant.Mcp.{Json, Tool, Server, max_request_bytes}
use server_assistant.Mcp.Dispatch.{
  Codec, Invocation, has_arg, missing_arg, call_with, parsed_arguments, call_tool, call_named,
  call_parsed, handle_tools_call, dispatch,
}
use server_assistant.Mcp.Http.{
  Request, RpcRequest, Wire, check_auth, write_unauthorized, handle_envelope, handle_decoded,
  handle_body, handle_post, serve_http,
}

-- The handler is that of a registered tool, and gets every argument that the tool requires.
pub record IsEligible (s : Server) (i : Invocation) : Type 0 where
  pub name : String
  pub registered : lookup name s.tools ≡ some i.tool
  pub complete : All (λ arg. has_arg i.args arg ≡ true) i.tool.required

-- One handler at most is called, and it is eligible.
pub record IsOrderly (s : Server) (calls : List Invocation) : Type 0 where
  pub eligible : All (IsEligible s) calls
  pub single : length calls ≤ 1

no_calls : (s : Server) → IsOrderly s []
no_calls s = record { eligible = tt; single = omega arith }

nothing_missing :
    (args : Dict Json) (required : List String)
    → missing_arg args required ≡ none
    → All (λ arg. has_arg args arg ≡ true) required
nothing_missing args [] h = tt
nothing_missing args (name ∷ rest) h = ground (arith, h, nothing_missing args rest)

call_with-IsOrderly :
    (s : Server) (name : String) (tool : Tool) (args : Dict Json)
    → lookup name s.tools ≡ some tool
    → IsOrderly s (call_with tool args).1
unfolding call_with
call_with-IsOrderly s name tool args at = elim (Option-cases (missing_arg args tool.required)) [
  | inr (arg, e) ↦ rw (e, call_with) (no_calls s)
  | inl e ↦
      rw (e, call_with)
        (record {
          eligible = (
            record {
              name = name;
              registered = at;
              complete = nothing_missing args tool.required e;
            },
            tt,
          );
          single = omega arith;
        })
]

call_tool-IsOrderly :
    (codec : Codec) (s : Server) (name : String) (raw : Option String) (tool : Tool)
    → lookup name s.tools ≡ some tool
    → IsOrderly s (call_tool codec raw tool).1
unfolding call_tool
call_tool-IsOrderly codec s name raw tool at = elim (Option-cases (parsed_arguments codec raw)) [
  | inl e ↦ rw (e, call_tool) (no_calls s)
  | inr (args, e) ↦ rw (e, call_tool) (call_with-IsOrderly s name tool args at)
]

call_named-IsOrderly :
    (codec : Codec) (s : Server) (call : String × Option String)
    → IsOrderly s (call_named codec s call).1
call_named-IsOrderly codec s (name, raw) = elim (Bool-cases (str_eq name "")) [
  | inl e ↦ rw (e, call_named, if◌then◌else◌) (no_calls s)
  | inr e ↦ elim (Option-cases (lookup name s.tools)) [
    | inl at ↦ simp (e, at) (no_calls s)
    | inr (tool, at) ↦ simp (e, at) (call_tool-IsOrderly codec s name raw tool at)
  ]
]

call_parsed-IsOrderly :
    (codec : Codec) (s : Server) (call : Option (String × Option String))
    → IsOrderly s (call_parsed codec s call).1
call_parsed-IsOrderly codec s none = no_calls s
call_parsed-IsOrderly codec s (some call) = call_named-IsOrderly codec s call

handle_tools_call-IsOrderly :
    (codec : Codec) (s : Server) (params : String)
    → IsOrderly s (handle_tools_call codec s params).1
unfolding handle_tools_call
handle_tools_call-IsOrderly codec s params =
    call_parsed-IsOrderly codec s (codec.call_params params)

uncalled :
    (codec : Codec) (s : Server) (method params : String)
    → str_eq method "tools/call" ≡ false
    → (dispatch codec s method params).1 ≡ []
unfolding dispatch
uncalled codec s method params e = ground (arith, e)

-- Only the method tools/call calls a handler.
dispatch-IsOrderly :
    (codec : Codec) (s : Server) (method params : String)
    → IsOrderly s (dispatch codec s method params).1
unfolding dispatch
dispatch-IsOrderly codec s method params = elim (Bool-cases (str_eq method "tools/call")) [
  | inl e ↦
      let same : method ≡ "tools/call" = (eq_iff method "tools/call").0 e in
      rw same (handle_tools_call-IsOrderly codec s params)
  | inr e ↦ rw (uncalled codec s method params e) (no_calls s)
]

handle_envelope-IsOrderly :
    (codec : Codec) (s : Server) (req : RpcRequest) → IsOrderly s (handle_envelope codec s req).1
unfolding handle_envelope
handle_envelope-IsOrderly codec s req = elim (Bool-cases (str_eq req.method "")) [
  | inl e ↦ simp e (no_calls s)
  | inr e ↦ elim (Bool-cases (str_eq req.id "" || str_eq req.id "null")) [
    | inl n ↦ simp (e, n) (no_calls s)
    | inr n ↦ simp (e, n) (dispatch-IsOrderly codec s req.method req.params)
  ]
]

-- A request is heard if it passes the token where one is configured, is a POST, and has a body of at
-- most 64 KiB that decodes.
pub record IsHeard (wire : Wire) (s : Server) (r : Request) : Type 0 where
  pub admitted : (not (str_eq s.auth_token "") && not (check_auth wire s r)) ≡ false
  pub posted : r.method ≡ "POST"
  pub body : String
  pub sent : r.body ≡ some body
  pub bounded : wire.bytes body ≤ max_request_bytes

-- What a request makes of the handlers: nothing, or it is heard and its calls are in order.
abbrev pub Reaches : Wire → Server → Request → List Invocation → Type 0
Reaches wire s r calls = (calls ≡ []) ⊎ (IsHeard wire s r × IsOrderly s calls)

handle_decoded-IsOrderly :
    (wire : Wire) (codec : Codec) (s : Server) (body : String) (req : Option RpcRequest)
    → IsOrderly s (handle_decoded wire codec s body req).1
handle_decoded-IsOrderly wire codec s body none = no_calls s
handle_decoded-IsOrderly wire codec s body (some req) = handle_envelope-IsOrderly codec s req

handle_body-Reaches :
    (wire : Wire) (codec : Codec) (s : Server) (r : Request) (body : Option String)
    → (not (str_eq s.auth_token "") && not (check_auth wire s r)) ≡ false
    → str_eq r.method "POST" ≡ true
    → r.body ≡ body
    → Reaches wire s r (handle_body wire codec s body).1
handle_body-Reaches wire codec s r none admitted posted e = inl refl
handle_body-Reaches wire codec s r (some body) admitted posted e =
    elim (Bool-cases (ltb max_request_bytes (wire.bytes body))) [
      | inl large ↦ rw (large, if◌then◌else◌) (inl refl)
      | inr small ↦
          rw (small, if◌then◌else◌)
            (inr (
              record {
                admitted = admitted;
                posted = (eq_iff r.method "POST").0 posted;
                body = body;
                sent = e;
                bounded = ground (arith, small);
              },
              handle_decoded-IsOrderly wire codec s body (wire.envelope body),
            ))
    ]

-- A request to the MCP endpoint calls no handler of a tool at all, or: it carried the configured
-- token if there is one, it was a POST with a body of at most 64 KiB, it called one handler at most,
-- and that of a registered tool, with every argument that the tool requires.
pub serve_http-Reaches :
    (wire : Wire) (codec : Codec) (s : Server) (r : Request)
    → Reaches wire s r (serve_http wire codec s r).1
unfolding serve_http handle_post
serve_http-Reaches wire codec s r =
    elim (Bool-cases (not (str_eq s.auth_token "") && not (check_auth wire s r))) [
      | inl e ↦ simp e (inl refl)
      | inr e ↦ elim (Bool-cases (str_eq r.method "POST")) [
        | inr m ↦ simp (e, m) (inl refl)
        | inl m ↦ simp (e, m) (handle_body-Reaches wire codec s r r.body e m refl)
      ]
    ]

-- Where a token is configured: two requests that do not carry it get the same reply, whatever their
-- methods, headers and bodies are, and neither calls a handler.
pub refused_alike :
    (wire : Wire) (codec : Codec) (s : Server) (r q : Request)
    → str_eq s.auth_token "" ≡ false
    → check_auth wire s r ≡ false
    → check_auth wire s q ≡ false
    → (serve_http wire codec s r ≡ serve_http wire codec s q)
      × (serve_http wire codec s r ≡ (write_unauthorized, []))
unfolding serve_http
refused_alike wire codec s r q set wrong bad = ground (arith, set, wrong, bad)
