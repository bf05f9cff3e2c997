-- ===== src/Config/Secrets.antt =====
-- Config.resolveSecrets and secretResolver of internal/config/config.go: the references to
-- variables of the environment. A resolver passes on the set of the missing variables.
pub mod Missing
use server_assistant.Prelude.{
  String, ◌≡◌, refl, Bool, true, false, Option, none, some, List, [], ◌∷◌, map, if◌then◌else◌,
}
use server_assistant.Config.Checked.{Arg, text, Refusal, refused, Checked, good, bad}
use server_assistant.Config.Records.{
  ServiceConfig, SshConfig, HostConfig, UnraidConfig, HarnessConfig, Config,
}
use server_assistant.Config.Library.{Library}
use server_assistant.Config.Blocks.{contains}

abbrev pub Resolver : Type 0 → Type 0
Resolver A = List String → A × List String

infixl 5 ◌>>=◌
abbrev ◌>>=◌ : {A B : Type 0} → Resolver A → (A → Resolver B) → Resolver B
◌>>=◌ m next missing = let (a, more) = m missing in next a more

abbrev pub pure : {A : Type 0} → A → Resolver A
pure a missing = (a, missing)

abbrev pub if_there : {A : Type 0} → (A → Resolver A) → Option A → Resolver (Option A)
if_there resolve none = pure none
if_there resolve (some a) = resolve a >>= λ b. pure (some b)

-- The keys of a message, in place of their text joined by ", ".
abbrev pub texts : List String → List Arg
texts = map text

module _ (lib : Library) where
  -- What a reference is replaced by: nothing, if the variable is not set.
  abbrev pub value_of : String → String
  value_of key = elim (lib.lookup_env key) [ none ↦ "" | some v ↦ v ]

  -- The function that expand hands to os.Expand, as far as it fills r.missing.
  abbrev pub note_key : String → List String → List String
  note_key key missing = elim (lib.lookup_env key) [
    | some v ↦ missing
    | none ↦ if contains key missing then missing else key ∷ missing
  ]

  abbrev pub note_missing : List String → List String → List String
  note_missing [] missing = missing
  note_missing (key ∷ keys) missing = note_missing keys (note_key key missing)

  -- secretResolver.expand
  unfoldable pub expand : String → Resolver String
  expand s missing = (lib.expand value_of s, note_missing (lib.references s) missing)

  unfoldable pub expand_services : List ServiceConfig → Resolver (List ServiceConfig)
  expand_services [] = pure []
  expand_services (s ∷ rest) = do
    url ← expand s.url
    tcp_addr ← expand s.tcp_addr
    container ← expand s.container
    others ← expand_services rest
    pure (record s { url = url; tcp_addr = tcp_addr; container = container } ∷ others)

  unfoldable pub expand_unraid : UnraidConfig → Resolver UnraidConfig
  expand_unraid u = do
    graphql_url ← expand u.graphql_url
    api_key ← expand u.api_key
    smartctl_path ← expand u.smartctl_path
    docker_socket ← expand u.docker_socket
    tailscale_path ← expand u.tailscale_path
    pure (record u {
      graphql_url = graphql_url;
      api_key = api_key;
      smartctl_path = smartctl_path;
      docker_socket = docker_socket;
      tailscale_path = tailscale_path;
    })

  unfoldable pub expand_host : HostConfig → Resolver HostConfig
  expand_host h = do address ← expand h.address; pure (record h { address = address })

  unfoldable pub expand_ssh : SshConfig → Resolver SshConfig
  expand_ssh s = do
    address ← expand s.address
    user ← expand s.user
    password ← expand s.password
    key_file ← expand s.key_file
    pure (record s { address = address; user = user; password = password; key_file = key_file })

  unfoldable pub expand_harness : HarnessConfig → Resolver HarnessConfig
  expand_harness h = do
    api_key ← expand h.reasoner.api_key
    write_ssh ← if_there expand_ssh h.write_ssh
    pure (record h { reasoner = record h.reasoner { api_key = api_key }; write_ssh = write_ssh })

  -- The body of resolveSecrets, up to its return.
  unfoldable pub expand_config : Config → Resolver Config
  expand_config c = do
    http_addr ← expand c.http_addr
    database_path ← expand c.database_path
    services ← expand_services c.services
    bot_token ← expand c.telegram.bot_token
    chat_id ← expand c.telegram.chat_id
    auth_token ← expand c.mcp.auth_token
    unraid ← if_there expand_unraid c.unraid
    host ← if_there expand_host c.host
    ssh ← if_there expand_ssh c.ssh
    harness ← if_there expand_harness c.harness
    pure (record c {
      http_addr = http_addr;
      database_path = database_path;
      services = services;
      telegram = record c.telegram { bot_token = bot_token; chat_id = chat_id };
      mcp = record c.mcp { auth_token = auth_token };
      unraid = unraid;
      host = host;
      ssh = ssh;
      harness = harness;
    })

  -- secretResolver.err
  abbrev pub refuse_missing : Config → List String → Checked Config
  refuse_missing c [] = good c
  refuse_missing c (key ∷ keys) = bad (
      refused "config references unset environment variables: %s" (texts (lib.sorted (key ∷ keys))))

  -- resolveSecrets
  unfoldable pub resolve_secrets : Config → Checked Config
  resolve_secrets c =
      let (expanded, missing) = expand_config c [] in refuse_missing expanded missing
