-- ===== src/Config/Sound.antt =====
-- What holds of a configuration that internal/config accepted: its services, its host and its
-- credentials.
pub mod Services
pub mod Engine
pub mod Blocks
pub mod Loaded
use mathlib.Core.Path.{subst}
use server_assistant.Prelude.{
  ap, ℕ, String, ◌≡◌, refl, sym, ◌∙◌, Bool, true, false, not, ◌&&◌, ◌||◌, Option, none, some, List,
  [], ◌∷◌, arith, any, str_eq, inl, inr, Bool-cases, ◌==◌, ==_iff,
}
use server_assistant.Prelude.Int.{ℤ, pos, is_positive}
use server_assistant.Prelude.Chars.{codes}
use server_assistant.Config.Checked.{
  Checked, good, bad, ◌>>=◌, ◌>>◌, refuse_if, within, accepted_bind, accepted_guard,
  accepted_within,
}
use server_assistant.Config.Texts.{
  is_empty, breaks_dashboard, is_dashboard_safe, check_dashboard_safe_name, parse_duration_default,
}
use server_assistant.Config.Records.{ServiceConfig, SshConfig, HostConfig}
use server_assistant.Config.Subjects.{
  probe_kinds, resolve_service, resolve_ssh, resolve_host, or_default,
}

-- A service that the monitor can probe and the dashboard can show.
pub record IsServiceSound (s : ServiceConfig) : Type 0 where
  pub named : is_empty s.name ≡ false
  pub shown : is_dashboard_safe s.name ≡ true
  pub one_kind : probe_kinds s ≡ 1
  pub poll : is_positive s.poll ≡ true
  pub deadline : is_positive s.probe_timeout ≡ true
  pub threshold : is_positive s.threshold ≡ true
  pub debounced : is_positive s.debounce_n ≡ true

-- The password and the key file are not both missing.
pub record IsSshSound (s : SshConfig) : Type 0 where
  pub address : is_empty s.address ≡ false
  pub user : is_empty s.user ≡ false
  pub credential : (is_empty s.password && is_empty s.key_file) ≡ false
  pub deadline : is_positive s.probe_timeout ≡ true

pub record IsHostSound (h : HostConfig) : Type 0 where
  pub named : is_empty h.name ≡ false
  pub shown : is_dashboard_safe h.name ≡ true
  pub address : is_empty h.address ≡ false
  pub poll : is_positive h.poll ≡ true
  pub deadline : is_positive h.probe_timeout ≡ true
  pub debounced : is_positive h.debounce_n ≡ true

safe_name :
    (name : String) (u : Unit {0})
    → check_dashboard_safe_name name ≡ good u
    → is_dashboard_safe name ≡ true
unfolding refuse_if
safe_name name u h = ground (arith, h)

pub parse_duration_default_positive :
    (parse : String → Checked ℤ) (v : String) (default d : ℤ)
    → is_positive default ≡ true
    → parse_duration_default parse v default ≡ good d
    → is_positive d ≡ true
unfolding parse_duration_default ◌>>=◌ refuse_if
parse_duration_default_positive parse v default d p h = ground (arith, h, p)

-- From `good x ≡ good t` a property of `x` is one of `t`.
pub transport_good {ℓ} : {A : Type ℓ} (P : A → Type 0) {x t : A} → P x → good x ≡ good t → P t
transport_good P holds e = subst P (cc e) holds

module _ (parse : String → Checked ℤ) where
  abbrev positive :
      (v : String) (default d : ℤ)
      → is_positive default ≡ true
      → parse_duration_default parse v default ≡ good d
      → is_positive d ≡ true
  positive = parse_duration_default_positive parse

  pub resolve_service-IsServiceSound :
      (s t : ServiceConfig) → resolve_service parse s ≡ good t → IsServiceSound t
  unfolding resolve_service
  resolve_service-IsServiceSound s t h =
      let n = accepted_guard _ _ _ h in
      let c = accepted_guard _ _ _ n.1 in
      let k = accepted_guard _ _ _ c.1 in
      let p = accepted_within _ _ _ k.1 in
      let d = accepted_within _ _ _ p.2 in
      let l = accepted_within _ _ _ d.2 in
      let b = accepted_guard _ _ _ l.2 in
      transport_good IsServiceSound
        (record {
          named = n.0;
          shown = ap not c.0;
          one_kind = ground (arith, k.0);
          poll = positive _ _ _ refl p.1;
          deadline = positive _ _ _ refl d.1;
          threshold = positive _ _ _ refl l.1;
          debounced = ground (arith, b.0);
        })
        b.1

  pub resolve_ssh-IsSshSound : (s t : SshConfig) → resolve_ssh parse s ≡ good t → IsSshSound t
  unfolding resolve_ssh
  resolve_ssh-IsSshSound s t h =
      let a = accepted_guard _ _ _ h in
      let u = accepted_guard _ _ _ a.1 in
      let c = accepted_guard _ _ _ u.1 in
      let d = accepted_within _ _ _ c.1 in
      transport_good IsSshSound
        (record { address = a.0; user = u.0; credential = c.0; deadline = positive _ _ _ refl d.1 })
        d.2

  pub resolve_host-IsHostSound : (s t : HostConfig) → resolve_host parse s ≡ good t → IsHostSound t
  unfolding resolve_host
  resolve_host-IsHostSound s t h =
      let n = accepted_guard _ _ _ h in
      let c = accepted_within _ _ _ n.1 in
      let a = accepted_guard _ _ _ c.2 in
      let p = accepted_within _ _ _ a.1 in
      let d = accepted_within _ _ _ p.2 in
      let b = accepted_guard _ _ _ d.2 in
      transport_good IsHostSound
        (record {
          named = n.0;
          shown = safe_name _ _ c.1;
          address = a.0;
          poll = positive _ _ _ refl p.1;
          deadline = positive _ _ _ refl d.1;
          debounced = ground (arith, b.0);
        })
        b.1
