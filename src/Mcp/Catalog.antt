-- ===== src/Mcp/Catalog.antt =====
-- The catalog of tools of internal/mcp/server.go under Register.
use server_assistant.Prelude.{
  String, ◌≡◌, refl, sym, ap, ◌∙◌, Bool, true, false, Option, none, some, List, [], ◌∷◌, ◌++◌, map,
  arith, All, str_eq, eq_iff, Option-cases, inl, inr, if◌then◌else◌,
}
use server_assistant.Prelude.Dict.{Dict, lookup, insert, lookup-insert}
use server_assistant.Config.Blocks.{contains}
use server_assistant.Config.Sound.Services.{AllDistinct}
use server_assistant.Config.Sound.Blocks.{AllDistinct-snoc}
use server_assistant.Mcp.{Tool, Server, register, empty_server}
use server_assistant.Mcp.Dispatch.{in_order}

abbrev pub keys {ℓ} : {A : Type ℓ} → Dict A → List String
keys entries = map (λ entry. entry.0) entries

-- The map and the list of its keys agree: tools/list shows every tool once.
pub record IsCatalog (s : Server) : Type 0 where
  pub ordered : keys s.tools ≡ s.tool_order
  pub distinct : AllDistinct s.tool_order
  pub named : All (λ entry. entry.1.name ≡ entry.0) s.tools

module _ {ℓ} {A : Type ℓ} where
  -- Whether a key is there, by its lookup.
  known : Option A → Bool
  known none = false
  known (some a) = true

  contains-keys : (k : String) (d : Dict A) → contains k (keys d) ≡ known (lookup k d)
  unfolding lookup known
  contains-keys k [] = refl
  contains-keys k (entry ∷ d) = ground (arith, contains-keys k d)

  keys-insert_new :
      (k : String) (v : A) (d : Dict A) → lookup k d ≡ none → keys (insert k v d) ≡ keys d ++ k ∷ []
  unfolding lookup insert
  keys-insert_new k v [] e = refl
  keys-insert_new k v (entry ∷ d) e = ground (arith, e, keys-insert_new k v d)

  keys-insert_old :
      (k : String) (v old : A) (d : Dict A) → lookup k d ≡ some old → keys (insert k v d) ≡ keys d
  unfolding lookup insert
  keys-insert_old k v old [] e = cc
  keys-insert_old k v old (entry ∷ d) e = ground (arith, e, keys-insert_old k v old d)

  in_order_skip :
      (entry : String × A) (d : Dict A) (ks : List String)
      → contains entry.0 ks ≡ false
      → in_order (entry ∷ d) ks ≡ in_order d ks
  unfolding lookup
  in_order_skip entry d [] e = refl
  in_order_skip entry d (k ∷ ks) e =
      ground (arith, e, in_order_skip entry d ks, eq_iff entry.0 k, eq_iff k entry.0)

  in_order-keys :
      (d : Dict A) → AllDistinct (keys d) → in_order d (keys d) ≡ map (λ entry. entry.1) d
  unfolding lookup
  in_order-keys [] h = refl
  in_order-keys (entry ∷ d) h =
      ground
        (arith, in_order_skip entry d (keys d) h.0, in_order-keys d h.1, eq_iff entry.0 entry.0)

named-insert :
    (t : Tool) (d : Dict Tool)
    → All (λ entry. entry.1.name ≡ entry.0) d
    → All (λ entry. entry.1.name ≡ entry.0) (insert t.name t d)
unfolding insert
named-insert t [] h = (refl, tt)
named-insert t (entry ∷ d) h = ground (arith, h, named-insert t d h.1, eq_iff entry.0 t.name)

fresh_name :
    (name : String) (s : Server)
    → IsCatalog s
    → lookup name s.tools ≡ none
    → contains name s.tool_order ≡ false
unfolding known
fresh_name name s c e = ap (contains name) (sym c.ordered) ∙ contains-keys name s.tools ∙ ap known e

register-IsCatalog : (t : Tool) (s : Server) → IsCatalog s → IsCatalog (register t s)
unfolding register
register-IsCatalog t s c = elim (Option-cases (lookup t.name s.tools)) [
  | inl e ↦
      rw (e, register)
        (record {
          ordered = keys-insert_new t.name t s.tools e ∙ ap (λ l. l ++ t.name ∷ []) c.ordered;
          distinct = AllDistinct-snoc s.tool_order t.name (fresh_name t.name s c e) c.distinct;
          named = named-insert t s.tools c.named;
        })
  | inr (old, e) ↦
      rw (e, register)
        (record {
          ordered = keys-insert_old t.name t old s.tools e ∙ c.ordered;
          distinct = c.distinct;
          named = named-insert t s.tools c.named;
        })
]

-- The server after registrations, in their order.
abbrev pub register_all : List Tool → Server → Server
register_all [] s = s
register_all (t ∷ ts) s = register_all ts (register t s)

register_all-IsCatalog : (ts : List Tool) (s : Server) → IsCatalog s → IsCatalog (register_all ts s)
register_all-IsCatalog [] s c = c
register_all-IsCatalog (t ∷ ts) s c =
    register_all-IsCatalog ts (register t s) (register-IsCatalog t s c)

-- The last tool of this name among the registrations.
abbrev pub last_tool : String → List Tool → Option Tool
last_tool name [] = none
last_tool name (t ∷ ts) = elim (last_tool name ts) [
  | some later ↦ some later
  | none ↦ if str_eq t.name name then some t else none
]

abbrev or_before : Option Tool → Option Tool → Option Tool
or_before none before = before
or_before (some t) before = some t

lookup-register_all :
    (name : String) (ts : List Tool) (s : Server)
    → lookup name (register_all ts s).tools ≡ or_before (last_tool name ts) (lookup name s.tools)
unfolding register
lookup-register_all name [] s = refl
lookup-register_all name (t ∷ ts) s =
    ground (arith, lookup-register_all name ts (register t s), lookup-insert t.name name t s.tools)

-- The tools in the order of the list, and the tool that a call finds under a name.
pub record IsFaithful (ts : List Tool) (s : Server) : Type 0 where
  pub catalog : IsCatalog s
  pub listed : in_order s.tools s.tool_order ≡ map (λ entry. entry.1) s.tools
  pub latest : (name : String) → lookup name s.tools ≡ last_tool name ts

-- After any registrations on an empty server, however often a name comes back: tools/list shows each
-- registered name exactly once, under the tool that was registered last with it, and tools/call finds
-- that tool and no other under the name.
pub register_all-IsFaithful :
    (ts : List Tool) (dashboard_base_url auth_token : String)
    → IsFaithful ts (register_all ts (empty_server dashboard_base_url auth_token))
unfolding lookup
register_all-IsFaithful ts url token =
    let s = register_all ts (empty_server url token) in
    let c =
      register_all-IsCatalog ts (empty_server url token)
        (record { ordered = refl; distinct = tt; named = tt }) in
    record {
      catalog = c;
      listed = rw (← c.ordered) (in_order-keys s.tools (rw c.ordered c.distinct));
      latest = λ name. ground (arith, lookup-register_all name ts (empty_server url token));
    }
