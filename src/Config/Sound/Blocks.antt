-- ===== src/Config/Sound/Blocks.antt =====
-- What the smaller blocks of internal/config ensure: telegram, history, sampler, unraid, scripts
-- and commands.
use server_assistant.Prelude.{
  String, ◌≡◌, refl, sym, ap, ◌∙◌, true, false, ◌||◌, List, [], ◌∷◌, ◌++◌, arith, All, All-append,
  str_eq, eq_iff, Bool-cases, inl, inr, if_true, if_false,
}
use server_assistant.Prelude.Int.{ℤ, is_positive, is_negative}
use server_assistant.Config.Checked.{
  Checked, good, ◌>>=◌, refuse_if, within, accepted_bind, accepted_guard, accepted_within,
}
use server_assistant.Config.Texts.{is_empty, is_container_name, parse_duration_default}
use server_assistant.Config.Records.{
  TelegramConfig, HistoryConfig, SamplerConfig, UnraidConfig, ScriptsConfig, CommandsConfig,
}
use server_assistant.Config.Blocks.{
  contains, check_telegram, dedup_names, resolve_history, resolve_sampler, resolve_unraid,
  resolve_scripts, resolve_commands,
}
use server_assistant.Config.Sound.{parse_duration_default_positive, transport_good}
use server_assistant.Config.Sound.Services.{AllDistinct}

-- Both credentials of the channel are set, or none is.
pub check_telegram_lem :
    (t : TelegramConfig) (u : Unit {0})
    → check_telegram t ≡ good u
    → is_empty t.bot_token ≡ is_empty t.chat_id
unfolding refuse_if
check_telegram_lem t u h = ground (arith, h)

pub record IsSamplerSound (s : SamplerConfig) : Type 0 where
  pub interval : is_positive s.interval ≡ true
  pub retention : is_positive s.retention ≡ true

pub record IsUnraidSound (u : UnraidConfig) : Type 0 where
  pub graphql : is_positive u.graphql_timeout ≡ true
  pub emhttp : is_positive u.emhttp_timeout ≡ true
  pub smart : is_positive u.smart_timeout ≡ true
  pub docker : is_positive u.docker_timeout ≡ true
  pub reachability : is_positive u.reachability_timeout ≡ true
  pub cpu_sample : is_positive u.cpu_sample_interval ≡ true

pub record IsScriptsSound (s : ScriptsConfig) : Type 0 where
  pub dry_run : is_positive s.dry_run_timeout ≡ true
  pub run : is_positive s.run_timeout ≡ true
  pub session : is_positive s.session_grant_ttl ≡ true
  pub standing : is_positive s.standing_grant_ttl ≡ true

-- The catalog of containers: names that are safe in a path, each once.
pub record IsCommandsSound (c : CommandsConfig) : Type 0 where
  pub timeout : is_positive c.timeout ≡ true
  pub safe : All (λ name. is_container_name name ≡ true) c.allow_restart
  pub distinct : AllDistinct c.allow_restart

contains-snoc :
    (other name : String) (names : List String)
    → contains other (names ++ name ∷ []) ≡ (contains other names || str_eq name other)
contains-snoc other name [] = ground arith
contains-snoc other name (first ∷ names) = ground (arith, contains-snoc other name names)

pub AllDistinct-snoc :
    (names : List String) (name : String)
    → contains name names ≡ false
    → AllDistinct names
    → AllDistinct (names ++ name ∷ [])
AllDistinct-snoc [] name new d = (refl, tt)
AllDistinct-snoc (other ∷ names) name new d = ground (
  arith,
  contains-snoc other name names,
  AllDistinct-snoc names name,
  eq_iff other name,
  eq_iff name other,
)

dedup_names_lem :
    (deduped names result : List String)
    → All (λ name. is_container_name name ≡ true) deduped
    → AllDistinct deduped
    → dedup_names deduped names ≡ good result
    → All (λ name. is_container_name name ≡ true) result × AllDistinct result
unfolding dedup_names
dedup_names_lem deduped [] result safe distinct h =
    transport_good (λ r. All (λ name. is_container_name name ≡ true) r × AllDistinct r)
      (safe, distinct) h
dedup_names_lem deduped (name ∷ rest) result safe distinct h =
    let a = accepted_guard _ _ _ h in
    elim (Bool-cases (contains name deduped)) [
      | inl old ↦
          dedup_names_lem deduped rest result safe distinct
            (ap (λ l. dedup_names l rest) (sym (if_true _ _ old)) ∙ a.1)
      | inr new ↦
          dedup_names_lem (deduped ++ name ∷ []) rest result
            (All-append _ deduped (name ∷ []) safe (ground (arith, a.0), tt))
            (AllDistinct-snoc deduped name new distinct)
            (ap (λ l. dedup_names l rest) (sym (if_false _ _ new)) ∙ a.1)
    ]

module _ (parse : String → Checked ℤ) where
  abbrev positive :
      (v : String) (default d : ℤ)
      → is_positive default ≡ true
      → parse_duration_default parse v default ≡ good d
      → is_positive d ≡ true
  positive = parse_duration_default_positive parse

  -- A window of zero keeps everything; a negative one is refused.
  pub resolve_history_lem :
      (h t : HistoryConfig) → resolve_history parse h ≡ good t → is_negative t.window ≡ false
  unfolding resolve_history ◌>>=◌ refuse_if within
  resolve_history_lem h t e = ground (arith, e)

  pub resolve_sampler-IsSamplerSound :
      (s t : SamplerConfig) → resolve_sampler parse s ≡ good t → IsSamplerSound t
  unfolding resolve_sampler
  resolve_sampler-IsSamplerSound s t h =
      let i = accepted_within _ _ _ h in
      let r = accepted_within _ _ _ i.2 in
      transport_good IsSamplerSound
        (record { interval = positive _ _ _ refl i.1; retention = positive _ _ _ refl r.1 }) r.2

  pub resolve_unraid-IsUnraidSound :
      (u t : UnraidConfig) → resolve_unraid parse u ≡ good t → IsUnraidSound t
  unfolding resolve_unraid
  resolve_unraid-IsUnraidSound u t h =
      let g = accepted_within _ _ _ h in
      let e = accepted_within _ _ _ g.2 in
      let s = accepted_within _ _ _ e.2 in
      let d = accepted_within _ _ _ s.2 in
      let r = accepted_within _ _ _ d.2 in
      let c = accepted_within _ _ _ r.2 in
      transport_good IsUnraidSound
        (record {
          graphql = positive _ _ _ refl g.1;
          emhttp = positive _ _ _ refl e.1;
          smart = positive _ _ _ refl s.1;
          docker = positive _ _ _ refl d.1;
          reachability = positive _ _ _ refl r.1;
          cpu_sample = positive _ _ _ refl c.1;
        })
        c.2

  pub resolve_scripts-IsScriptsSound :
      (s t : ScriptsConfig) → resolve_scripts parse s ≡ good t → IsScriptsSound t
  unfolding resolve_scripts
  resolve_scripts-IsScriptsSound s t h =
      let d = accepted_within _ _ _ h in
      let r = accepted_within _ _ _ d.2 in
      let e = accepted_within _ _ _ r.2 in
      let f = accepted_within _ _ _ e.2 in
      transport_good IsScriptsSound
        (record {
          dry_run = positive _ _ _ refl d.1;
          run = positive _ _ _ refl r.1;
          session = positive _ _ _ refl e.1;
          standing = positive _ _ _ refl f.1;
        })
        f.2

  pub resolve_commands-IsCommandsSound :
      (c t : CommandsConfig) → resolve_commands parse c ≡ good t → IsCommandsSound t
  unfolding resolve_commands
  resolve_commands-IsCommandsSound c t h =
      let d = accepted_within _ _ _ h in
      let n = accepted_bind _ _ d.2 in
      let catalog = dedup_names_lem [] c.allow_restart n.0 tt tt n.1 in
      transport_good IsCommandsSound
        (record { timeout = positive _ _ _ refl d.1; safe = catalog.0; distinct = catalog.1 }) n.2
