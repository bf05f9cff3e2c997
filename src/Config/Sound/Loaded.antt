-- ===== src/Config/Sound/Loaded.antt =====
-- What FileSource.Load (internal/config/config.go) ensures of the configuration that it returns.
use server_assistant.Prelude.{
  String, ◌≡◌, refl, Bool, true, false, not, ◌&&◌, Option, none, some, List, [], arith,
}
use server_assistant.Prelude.Int.{ℤ, is_negative, int_eq}
use server_assistant.Config.Checked.{
  Checked, good, accepted_bind, accepted_guard, accepted_within, within_good,
}
use server_assistant.Config.Texts.{is_empty}
use server_assistant.Config.Records.{HostConfig, HarnessConfig, Config}
use server_assistant.Config.Library.{Library}
use server_assistant.Config.Blocks.{contains}
use server_assistant.Config.Validate.{
  is_set, if_present, check_host, or_empty, service_names, validate, supported_schema_version,
}
use server_assistant.Config.Load.{load}
use server_assistant.Config.Sound.{
  IsSshSound, resolve_ssh-IsSshSound, IsHostSound, resolve_host-IsHostSound, transport_good,
}
use server_assistant.Config.Sound.Services.{AreServed, resolve_services-AreServed}
use server_assistant.Config.Sound.Engine.{IsResolved, resolve_harness-IsResolved}
use server_assistant.Config.Sound.Blocks.{
  check_telegram_lem, IsSamplerSound, IsUnraidSound, IsScriptsSound, IsCommandsSound,
  resolve_history_lem, resolve_sampler-IsSamplerSound, resolve_unraid-IsUnraidSound,
  resolve_scripts-IsScriptsSound, resolve_commands-IsCommandsSound,
}

-- A predicate on the block, where there is one.
abbrev pub WhenSet {ℓ κ} : {A : Type ℓ} → (A → Type κ) → Option A → Type κ
WhenSet P none = Unit
WhenSet P (some a) = P a

-- The host is sound, has a name of its own, and is probed over SSH only with an ssh block.
pub record IsHostWired (names : List String) (has_ssh : Bool) (h : HostConfig) : Type 0 where
  pub sound : IsHostSound h
  pub apart : contains h.name names ≡ false
  pub reachable : (h.ssh_metrics && not has_ssh) ≡ false

pub record IsSound (lib : Library) (c : Config) : Type 0 where
  pub version : int_eq c.schema_version supported_schema_version ≡ true
  pub services : AreServed (is_set c.ssh) [] c.services
  pub ssh : WhenSet IsSshSound c.ssh
  pub harness :
      (h : HarnessConfig) × (c.harness ≡ some h)
      × IsResolved lib.fold lib.parse_url (service_names c.services) c.ssh h
  pub host : WhenSet (IsHostWired (service_names c.services) (is_set c.ssh)) c.host
  pub telegram : is_empty c.telegram.bot_token ≡ is_empty c.telegram.chat_id
  pub history : is_negative c.history.window ≡ false
  pub sampler : IsSamplerSound c.sampler
  pub unraid : WhenSet IsUnraidSound c.unraid
  pub scripts : IsScriptsSound c.scripts
  pub commands : IsCommandsSound c.commands

if_present-WhenSet {ℓ κ} :
    {A : Type ℓ} (P : A → Type κ) (resolve : A → Checked A) (o t : Option A)
    → ((a b : A) → resolve a ≡ good b → P b)
    → if_present resolve o ≡ good t
    → WhenSet P t
if_present-WhenSet P resolve none none sound h = tt
if_present-WhenSet P resolve none (some b) sound h = absurd (ground (arith, h))
if_present-WhenSet P resolve (some a) none sound h = tt
if_present-WhenSet P resolve (some a) (some b) sound h =
    let r = accepted_bind _ _ h in sound a b (ground (arith, r.1, r.2))

check_host-IsHostWired :
    (parse : String → Checked ℤ) (names : List String) (has_ssh : Bool) (h t : HostConfig)
    → check_host parse names has_ssh h ≡ good t
    → IsHostWired names has_ssh t
unfolding check_host
check_host-IsHostWired parse names has_ssh h t e =
    let r = accepted_bind _ _ e in
    let c = accepted_guard _ _ _ r.2 in
    let m = accepted_guard _ _ _ c.1 in
    transport_good (IsHostWired names has_ssh)
      (record { sound = resolve_host-IsHostSound parse h r.0 r.1; apart = c.0; reachable = m.0 })
      m.1

validate-IsSound : (lib : Library) (c t : Config) → validate lib c ≡ good t → IsSound lib t
unfolding validate
validate-IsSound lib c t e =
    let parse = lib.parse_duration in
    let a = accepted_guard _ _ _ e in
    let v = accepted_guard _ _ _ a.1 in
    let s = accepted_bind _ _ v.1 in
    let ss = accepted_bind _ _ s.2 in
    let h = accepted_bind _ _ ss.2 in
    let o = accepted_bind _ _ h.2 in
    let g = accepted_bind _ _ o.2 in
    let w = accepted_bind _ _ g.2 in
    let m = accepted_bind _ _ w.2 in
    let u = accepted_bind _ _ m.2 in
    let p = accepted_bind _ _ u.2 in
    let q = accepted_bind _ _ p.2 in
    let names = service_names ss.0 in
    transport_good (IsSound lib)
      (record {
        version = ground (arith, v.0);
        services = resolve_services-AreServed parse (is_set s.0) [] c.services ss.0 ss.1;
        ssh = if_present-WhenSet IsSshSound _ c.ssh s.0 (resolve_ssh-IsSshSound parse) s.1;
        harness = (
          h.0,
          refl,
          resolve_harness-IsResolved lib.fold parse lib.parse_url names s.0 (or_empty c.harness) h.0
              h.1,
        );
        host =
            if_present-WhenSet (IsHostWired names (is_set s.0)) _ c.host o.0
              (check_host-IsHostWired parse names (is_set s.0)) o.1;
        telegram = check_telegram_lem c.telegram g.0 g.1;
        history = resolve_history_lem parse c.history w.0 w.1;
        sampler = resolve_sampler-IsSamplerSound parse c.sampler m.0 m.1;
        unraid =
            if_present-WhenSet IsUnraidSound _ c.unraid u.0 (resolve_unraid-IsUnraidSound parse)
              u.1;
        scripts = resolve_scripts-IsScriptsSound parse c.scripts p.0 p.1;
        commands = resolve_commands-IsCommandsSound parse c.commands q.0 q.1;
      })
      q.2

-- Whatever file Load accepts, the configuration it returns is sound. Its version is the supported one.
-- The services are distinct, each with one kind of probe and positive times, over SSH only with an
-- ssh block. The harness has a known mode and bounded ceilings, its targets are services with safe
-- container names, and when live each target is allowed and the write credential is another than the
-- read one. The host, if any, has a name of its own.
pub load-IsSound :
    (lib : Library) (path : String) (c : Config) → load lib path ≡ good c → IsSound lib c
unfolding load
load-IsSound lib path c e =
    let r = accepted_within _ _ _ e in
    let u = accepted_within _ _ _ r.2 in
    let x = accepted_within _ _ _ u.2 in validate-IsSound lib x.0 c (within_good _ _ x.2)
