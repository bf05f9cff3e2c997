-- ===== src/Config/Secrets/Missing.antt =====
-- Which configurations resolveSecrets (internal/config/config.go) refuses, and what it says then.
use server_assistant.Prelude.{
  String, ◌≡◌, ◌⊎◌, inl, inr, refl, sym, ap, ◌∙◌, Bool, true, false, ◌&&◌, ◌||◌, Option, none, some,
  List, [], ◌∷◌, ◌++◌, arith, any, str_eq, eq_iff, Bool-cases, Option-cases,
}
use server_assistant.Config.Checked.{refused, Checked, good, bad}
use server_assistant.Config.Records.{
  ServiceConfig, SshConfig, HostConfig, UnraidConfig, HarnessConfig, Config,
}
use server_assistant.Config.Library.{Library}
use server_assistant.Config.Blocks.{contains}
use server_assistant.Config.Secrets.{
  texts, if_there, expand_host, note_key, note_missing, expand, expand_services, expand_unraid,
  expand_ssh, expand_harness, expand_config, refuse_missing, resolve_secrets,
}

-- The fields that are searched for references, in the order in which they are expanded.
abbrev service_fields : List ServiceConfig → List String
service_fields [] = []
service_fields (s ∷ rest) = s.url ∷ s.tcp_addr ∷ s.container ∷ service_fields rest

abbrev fields_of {ℓ} : {A : Type ℓ} → (A → List String) → Option A → List String
fields_of f none = []
fields_of f (some a) = f a

abbrev ssh_fields : SshConfig → List String
ssh_fields s = s.address ∷ s.user ∷ s.password ∷ s.key_file ∷ []

abbrev host_fields : HostConfig → List String
host_fields h = h.address ∷ []

abbrev unraid_fields : UnraidConfig → List String
unraid_fields u =
    u.graphql_url ∷ u.api_key ∷ u.smartctl_path ∷ u.docker_socket ∷ u.tailscale_path ∷ []

abbrev harness_fields : HarnessConfig → List String
harness_fields h = h.reasoner.api_key ∷ fields_of ssh_fields h.write_ssh

abbrev pub expanded_fields : Config → List String
expanded_fields c =
    c.http_addr
    ∷ c.database_path
    ∷ (service_fields c.services
        ++ (c.telegram.bot_token
            ∷ c.telegram.chat_id
            ∷ c.mcp.auth_token
            ∷ (fields_of unraid_fields c.unraid
                ++ (fields_of host_fields c.host
                    ++ (fields_of ssh_fields c.ssh ++ fields_of harness_fields c.harness)))))

-- The set is empty exactly if no key is unset.
abbrev some_key : List String → Bool
some_key [] = false
some_key (key ∷ keys) = true

some_of_contains :
    (key : String) (keys : List String) → contains key keys ≡ true → some_key keys ≡ true
some_of_contains key [] h = h
some_of_contains key (k ∷ keys) h = refl

module _ (lib : Library) where
  abbrev pub is_unset : String → Bool
  is_unset key = elim (lib.lookup_env key) [ none ↦ true | some v ↦ false ]

  -- Some field refers to a variable that is not set.
  abbrev pub any_unset : List String → Bool
  any_unset = any (λ s. any is_unset (lib.references s))

  abbrev note_all : List String → List String → List String
  note_all [] missing = missing
  note_all (s ∷ rest) missing = note_all rest (note_missing lib (lib.references s) missing)

  note_all-append :
      (xs ys missing : List String)
      → note_all (xs ++ ys) missing ≡ note_all ys (note_all xs missing)
  note_all-append [] ys missing = refl
  note_all-append (x ∷ xs) ys missing =
      note_all-append xs ys (note_missing lib (lib.references x) missing)

  noted_services :
      (ss : List ServiceConfig) (missing : List String)
      → (expand_services lib ss missing).1 ≡ note_all (service_fields ss) missing
  unfolding expand_services expand
  noted_services [] missing = refl
  noted_services (s ∷ rest) missing = noted_services rest _

  noted_unraid :
      (o : Option UnraidConfig) (missing : List String)
      → (if_there (expand_unraid lib) o missing).1 ≡ note_all (fields_of unraid_fields o) missing
  unfolding expand_unraid expand
  noted_unraid none missing = refl
  noted_unraid (some u) missing = refl

  noted_host :
      (o : Option HostConfig) (missing : List String)
      → (if_there (expand_host lib) o missing).1 ≡ note_all (fields_of host_fields o) missing
  unfolding expand_host expand
  noted_host none missing = refl
  noted_host (some h) missing = refl

  noted_ssh :
      (o : Option SshConfig) (missing : List String)
      → (if_there (expand_ssh lib) o missing).1 ≡ note_all (fields_of ssh_fields o) missing
  unfolding expand_ssh expand
  noted_ssh none missing = refl
  noted_ssh (some s) missing = refl

  noted_harness :
      (o : Option HarnessConfig) (missing : List String)
      → (if_there (expand_harness lib) o missing).1 ≡ note_all (fields_of harness_fields o) missing
  unfolding expand_harness expand
  noted_harness none missing = refl
  noted_harness (some h) missing = noted_ssh h.write_ssh _

  noted_config :
      (c : Config) (missing : List String)
      → (expand_config lib c missing).1 ≡ note_all (expanded_fields c) missing
  unfolding expand_config expand
  noted_config c missing =
      simp (noted_services, noted_unraid, noted_host, noted_ssh, noted_harness, note_all-append)

  -- What a key adds to the set, and what the keys of one text or of all texts add.
  note_key_lem :
      (key k : String) (missing : List String)
      → contains k (note_key lib key missing) ≡ (contains k missing || (is_unset k && str_eq key k))
  note_key_lem key k missing = elim (Bool-cases (str_eq key k)) [
    | inl same ↦
        let e : key ≡ k = (eq_iff key k).0 same in
        rw e (elim (Option-cases (lib.lookup_env k)) [
          | inl unset ↦ ground (arith, unset, eq_iff k k)
          | inr (v, set) ↦ ground (arith, set)
        ])
    | inr other ↦ elim (Option-cases (lib.lookup_env key)) [
      | inl unset ↦ ground (arith, unset, other)
      | inr (v, set) ↦ ground (arith, set, other)
    ]
  ]

  note_missing_lem :
      (keys missing : List String) (k : String)
      → contains k (note_missing lib keys missing)
        ≡ (contains k missing || (is_unset k && contains k keys))
  note_missing_lem [] missing k = ground arith
  note_missing_lem (key ∷ keys) missing k =
      rw (note_missing_lem keys (note_key lib key missing) k)
        (rw (note_key_lem key k missing) (ground arith))

  note_all_lem :
      (fields missing : List String) (k : String)
      → contains k (note_all fields missing)
        ≡ (contains k missing || (is_unset k && any (λ s. contains k (lib.references s)) fields))
  note_all_lem [] missing k = ground arith
  note_all_lem (s ∷ fields) missing k =
      rw (note_all_lem fields (note_missing lib (lib.references s) missing) k)
        (rw (note_missing_lem (lib.references s) missing k) (ground arith))

  some_key-note_missing :
      (keys missing : List String)
      → some_key (note_missing lib keys missing) ≡ (some_key missing || any is_unset keys)
  some_key-note_missing [] missing = ground arith
  some_key-note_missing (key ∷ keys) missing =
      rw (some_key-note_missing keys (note_key lib key missing))
        (elim (Option-cases (lib.lookup_env key)) [
          | inl unset ↦ ground (arith, unset, some_of_contains key missing)
          | inr (v, set) ↦ ground (arith, set)
        ])

  some_key-note_all :
      (fields missing : List String)
      → some_key (note_all fields missing) ≡ (some_key missing || any_unset fields)
  some_key-note_all [] missing = ground arith
  some_key-note_all (s ∷ fields) missing =
      rw (some_key-note_all fields (note_missing lib (lib.references s) missing))
        (rw (some_key-note_missing (lib.references s) missing) (ground arith))

-- What an error of resolveSecrets says: the variables that the fields refer to and that are not set.
pub record IsReport (lib : Library) (fields : List String) (r : Checked Config) : Type 0 where
  pub missing : List String
  pub refusal :
      r
      ≡ bad
          (refused "config references unset environment variables: %s" (texts (lib.sorted missing)))
  pub named :
      (k : String)
      → contains k missing ≡ (is_unset lib k && any (λ s. contains k (lib.references s)) fields)

refuse_missing_lem :
    (lib : Library) (c : Config) (fields missing : List String)
    → missing ≡ note_all lib fields []
    → ((any_unset lib fields ≡ false) × (refuse_missing lib c missing ≡ good c))
      ⊎ ((any_unset lib fields ≡ true) × IsReport lib fields (refuse_missing lib c missing))
refuse_missing_lem lib c fields [] e =
    inl (sym (ap some_key e ∙ some_key-note_all lib fields []), refl)
refuse_missing_lem lib c fields (key ∷ keys) e = inr (
  sym (ap some_key e ∙ some_key-note_all lib fields []),
  record {
    missing = key ∷ keys;
    refusal = refl;
    named = λ k. ap (contains k) e ∙ note_all_lem lib fields [] k;
  },
)

-- resolveSecrets accepts a configuration exactly if every variable that an expanded field refers to
-- is set. Otherwise its error names the variables that the fields refer to and that are not set, and
-- no other.
pub resolve_secrets_lem :
    (lib : Library) (c : Config)
    → ((any_unset lib (expanded_fields c) ≡ false)
        × (resolve_secrets lib c ≡ good (expand_config lib c []).0))
      ⊎ ((any_unset lib (expanded_fields c) ≡ true)
          × IsReport lib (expanded_fields c) (resolve_secrets lib c))
unfolding resolve_secrets
resolve_secrets_lem lib c =
    refuse_missing_lem lib (expand_config lib c []).0 (expanded_fields c) (expand_config lib c []).1
      (noted_config lib c [])
