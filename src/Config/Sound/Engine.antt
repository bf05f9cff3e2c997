-- ===== src/Config/Sound/Engine.antt =====
-- What Harness.resolve (internal/config/config.go) ensures of the block that it accepts.
use mathlib.Core.Path.{subst}
use server_assistant.Prelude.{
  String, ◌≡◌, refl, sym, Bool, true, false, not, ◌&&◌, ◌||◌, Option, none, some, List, [], ◌∷◌,
  arith, All,
}
use server_assistant.Prelude.Int.{ℤ, is_positive, is_below, is_above}
use server_assistant.Prelude.Dict.{Dict}
use server_assistant.Core.Harness.{HarnessMode, parse_harness_mode}
use server_assistant.Config.Checked.{
  Checked, good, refuse_if, accepted_bind, accepted_guard, accepted_within, Refusal,
}
use server_assistant.Config.Texts.{is_empty, is_container_name, is_loopback_host}
use server_assistant.Config.Records.{SshConfig, HarnessConfig, Url}
use server_assistant.Config.Blocks.{contains}
use server_assistant.Config.HarnessBlock.{
  check_bounds, check_targets, check_allow_restart, check_allowed, is_http_url, url_hostname,
  check_reasoner, same_credential, required, check_live, check_mode, resolve_harness,
  harness_defaults,
}
use server_assistant.Config.Sound.{IsSshSound, resolve_ssh-IsSshSound, transport_good}

-- The bounds of the block.
pub record IsBounded (h : HarnessConfig) : Type 0 where
  pub calls :
      (is_below h.ceilings.max_tool_calls 1 || is_above h.ceilings.max_tool_calls 20) ≡ false
  pub lines : (is_below h.log_lines 1 || is_above h.log_lines 200) ≡ false
  pub wall_clock : is_positive h.ceilings.wall_clock ≡ true
  pub approval_timeout : is_positive h.approval_timeout ≡ true
  pub cooldown : is_positive h.cooldown ≡ true
  pub outcome_window : is_positive h.outcome_window ≡ true
  pub reasoner_timeout : is_positive h.reasoner.timeout ≡ true

-- A target names a configured service and has a container name that is safe in a command.
abbrev pub IsTargetSound : List String → String × String → Type 0
IsTargetSound names entry = (contains entry.0 names ≡ true) × (is_container_name entry.1 ≡ true)

-- The egress gate: a Reasoner off this machine is declared as one, and no other is.
pub record IsEgressGated (parse_url : String → Option Url) (h : HarnessConfig) : Type 0 where
  pub model : is_empty h.reasoner.model ≡ false
  pub url : is_http_url (parse_url h.reasoner.base_url) ≡ true
  pub declared :
      is_loopback_host (url_hostname (parse_url h.reasoner.base_url)) ≡ not h.reasoner.cloud

-- Live mode: no target outside the allowlist, and a write credential of its own.
pub record IsLiveSound (read_ssh : Option SshConfig) (h : HarnessConfig) : Type 0 where
  pub narrowed : All (λ entry. contains entry.1 h.allow_restart ≡ true) h.targets
  pub credential :
      (w : SshConfig) × (h.write_ssh ≡ some w) × IsSshSound w × (same_credential read_ssh w ≡ false)

abbrev pub ModeSound :
    (String → Option Url) → Option SshConfig → HarnessMode → HarnessConfig → Type 0
ModeSound parse_url read_ssh HarnessMode.off h = Unit
ModeSound parse_url read_ssh HarnessMode.shadow h = IsEgressGated parse_url h
ModeSound parse_url read_ssh HarnessMode.live h = IsEgressGated parse_url h × IsLiveSound read_ssh h

positive_idle : (d : ℤ) → not (is_positive d) ≡ false → is_positive d ≡ true
positive_idle d h = ground (arith, h)

last_guard :
    (test : Bool) (why : Refusal) (u : Unit {0}) → refuse_if test why ≡ good u → test ≡ false
unfolding refuse_if
last_guard test why u h = ground (arith, h)

check_bounds-IsBounded : (h : HarnessConfig) (u : Unit {0}) → check_bounds h ≡ good u → IsBounded h
unfolding check_bounds
check_bounds-IsBounded h u e =
    let a = accepted_guard _ _ _ e in
    let b = accepted_guard _ _ _ a.1 in
    let c = accepted_guard _ _ _ b.1 in
    let d = accepted_guard _ _ _ c.1 in
    let f = accepted_guard _ _ _ d.1 in
    let g = accepted_guard _ _ _ f.1 in
    record {
      calls = a.0;
      lines = b.0;
      wall_clock = positive_idle h.ceilings.wall_clock c.0;
      approval_timeout = positive_idle h.approval_timeout d.0;
      cooldown = positive_idle h.cooldown f.0;
      outcome_window = positive_idle h.outcome_window g.0;
      reasoner_timeout = positive_idle h.reasoner.timeout (last_guard _ _ u g.1);
    }

check_targets-IsTargetSound :
    (names : List String) (targets : Dict String) (u : Unit {0})
    → check_targets names targets ≡ good u
    → All (IsTargetSound names) targets
unfolding check_targets
check_targets-IsTargetSound names [] u e = tt
check_targets-IsTargetSound names (entry ∷ rest) u e =
    let a = accepted_guard _ _ _ e in
    let b = accepted_guard _ _ _ a.1 in
    ((ground (arith, a.0), ground (arith, b.0)), check_targets-IsTargetSound names rest u b.1)

check_allow_restart-All :
    (allow : List String) (u : Unit {0})
    → check_allow_restart allow ≡ good u
    → All (λ name. is_container_name name ≡ true) allow
unfolding check_allow_restart
check_allow_restart-All [] u e = tt
check_allow_restart-All (name ∷ rest) u e =
    let a = accepted_guard _ _ _ e in (ground (arith, a.0), check_allow_restart-All rest u a.1)

check_allowed-All :
    (allowed : List String) (targets : Dict String) (u : Unit {0})
    → check_allowed allowed targets ≡ good u
    → All (λ entry. contains entry.1 allowed ≡ true) targets
unfolding check_allowed
check_allowed-All allowed [] u e = tt
check_allowed-All allowed (entry ∷ rest) u e =
    let a = accepted_guard _ _ _ e in (ground (arith, a.0), check_allowed-All allowed rest u a.1)

egress :
    (loopback cloud : Bool)
    → (loopback && cloud) ≡ false
    → (not loopback && not cloud) ≡ false
    → loopback ≡ not cloud
egress true true a b = cc
egress true false a b = refl
egress false true a b = refl
egress false false a b = cc

check_reasoner-IsEgressGated :
    (parse_url : String → Option Url) (h : HarnessConfig) (u : Unit {0})
    → check_reasoner parse_url h ≡ good u
    → IsEgressGated parse_url h
unfolding check_reasoner
check_reasoner-IsEgressGated parse_url h u e =
    let a = accepted_guard _ _ _ e in
    let b = accepted_guard _ _ _ a.1 in
    let c = accepted_guard _ _ _ b.1 in
    let d = accepted_guard _ _ _ c.1 in
    let f = last_guard _ _ u d.1 in
    record { model = b.0; url = ground (arith, c.0); declared = egress _ h.reasoner.cloud d.0 f }

pub accepted_required {ℓ} :
    {A : Type ℓ} (o : Option A) (why : Refusal) {a : A} → required o why ≡ good a → o ≡ some a
accepted_required none why e = cc
accepted_required (some a) why e = cc

check_live-IsLiveSound :
    (parse : String → Checked ℤ) (read_ssh : Option SshConfig) (h t : HarnessConfig)
    → check_live parse read_ssh h ≡ good t
    → (w : SshConfig) × (t ≡ record h { write_ssh = some w }) × IsLiveSound read_ssh t
unfolding check_live
check_live-IsLiveSound parse read_ssh h t e =
    let a = accepted_bind _ _ e in
    let w = accepted_bind _ _ a.2 in
    let r = accepted_within _ _ _ w.2 in
    let d = accepted_guard _ _ _ r.2 in
    let narrowed = check_allowed-All h.allow_restart h.targets a.0 a.1 in
    let sound = resolve_ssh-IsSshSound parse w.0 r.0 r.1 in
    let same : t ≡ record h { write_ssh = some r.0 } = cc d.1 in
    (
      r.0,
      same,
      subst (IsLiveSound read_ssh) (sym same)
          (record { narrowed = narrowed; credential = (r.0, refl, sound, d.0) }),
    )

-- A resolved block: its mode is known, the rest is in bounds, and what the mode asks is there.
pub record IsResolved (fold : String → String) (parse_url : String → Option Url)
    (names : List String) (read_ssh : Option SshConfig) (h : HarnessConfig) : Type 0 where
  pub mode : HarnessMode
  pub known : parse_harness_mode fold h.mode ≡ some mode
  pub bounded : IsBounded h
  pub targets : All (IsTargetSound names) h.targets
  pub allowed : All (λ name. is_container_name name ≡ true) h.allow_restart
  pub moded : ModeSound parse_url read_ssh mode h

module _ (fold : String → String) (parse : String → Checked ℤ) (parse_url : String → Option Url)
    (names : List String) (read_ssh : Option SshConfig) where
  -- The checks of the mode change the write credential at most.
  check_mode-IsResolved :
      (mode : HarnessMode) (h t : HarnessConfig)
      → parse_harness_mode fold h.mode ≡ some mode
      → IsBounded h
      → All (IsTargetSound names) h.targets
      → All (λ name. is_container_name name ≡ true) h.allow_restart
      → check_mode parse parse_url read_ssh mode h ≡ good t
      → IsResolved fold parse_url names read_ssh t
  unfolding check_mode
  check_mode-IsResolved HarnessMode.off h t known bounded targets allowed e =
      transport_good (IsResolved fold parse_url names read_ssh)
        (record {
          mode = HarnessMode.off;
          known = known;
          bounded = bounded;
          targets = targets;
          allowed = allowed;
          moded = tt;
        })
        e
  check_mode-IsResolved HarnessMode.shadow h t known bounded targets allowed e =
      let a = accepted_bind _ _ e in
      transport_good (IsResolved fold parse_url names read_ssh)
        (record {
          mode = HarnessMode.shadow;
          known = known;
          bounded = bounded;
          targets = targets;
          allowed = allowed;
          moded = check_reasoner-IsEgressGated parse_url h a.0 a.1;
        })
        a.2
  check_mode-IsResolved HarnessMode.live h t known bounded targets allowed e =
      let a = accepted_bind _ _ e in
      let egress_gated = check_reasoner-IsEgressGated parse_url h a.0 a.1 in
      let (w, same, live) = check_live-IsLiveSound parse read_ssh h t a.2 in
      record {
        mode = HarnessMode.live;
        known = rw same known;
        bounded = rw same (record {
          calls = bounded.calls;
          lines = bounded.lines;
          wall_clock = bounded.wall_clock;
          approval_timeout = bounded.approval_timeout;
          cooldown = bounded.cooldown;
          outcome_window = bounded.outcome_window;
          reasoner_timeout = bounded.reasoner_timeout;
        });
        targets = rw same targets;
        allowed = rw same allowed;
        moded = (
          rw same (record {
            model = egress_gated.model;
            url = egress_gated.url;
            declared = egress_gated.declared;
          }),
          live,
        );
      }

  pub resolve_harness-IsResolved :
      (h t : HarnessConfig)
      → resolve_harness fold parse parse_url names read_ssh h ≡ good t
      → IsResolved fold parse_url names read_ssh t
  unfolding resolve_harness
  resolve_harness-IsResolved h t e =
      let m = accepted_within _ _ _ e in
      let b = accepted_bind _ _ m.2 in
      let g = accepted_bind _ _ b.2 in
      let a = accepted_bind _ _ g.2 in
      let f = harness_defaults h in
      check_mode-IsResolved m.0 f t (accepted_required _ _ m.1) (check_bounds-IsBounded f b.0 b.1)
        (check_targets-IsTargetSound names f.targets g.0 g.1)
        (check_allow_restart-All f.allow_restart a.0 a.1) a.2
