-- ===== src/Config/Order.antt =====
-- Harness.resolve (internal/config/config.go) ranges over a Go map, whose order is left open: what
-- it accepts and returns does not depend on the order.
use server_assistant.Prelude.{
  String, ◌≡◌, refl, sym, ◌∙◌, Bool, false, not, ◌||◌, Option, List, [], ◌∷◌, arith, any,
}
use server_assistant.Prelude.Int.{ℤ}
use server_assistant.Prelude.Dict.{Dict}
use server_assistant.Core.Harness.{HarnessMode}
use server_assistant.Config.Checked.{
  Checked, good, ◌>>=◌, refuse_if, accepted_bind, accepted_guard, accepted_within, then_good,
  then_within, then_guard,
}
use server_assistant.Config.Texts.{is_container_name}
use server_assistant.Config.Records.{SshConfig, HarnessConfig, Url}
use server_assistant.Config.Blocks.{contains}
use server_assistant.Config.HarnessBlock.{
  check_bounds, check_targets, check_allowed, check_reasoner, check_live, check_mode,
  resolve_harness, harness_defaults,
}

-- The same entries, in any order: a test that some entry of the one passes, some entry of the
-- other passes.
abbrev pub SameEntries : Dict String → Dict String → Type 0
SameEntries left right = (test : String × String → Bool) → any test left ≡ any test right

abbrev pub is_refused_target : List String → String × String → Bool
is_refused_target names entry = not (contains entry.0 names) || not (is_container_name entry.1)

check_targets_accepts :
    (names : List String) (targets : Dict String)
    → any (is_refused_target names) targets ≡ false
    → check_targets names targets ≡ good tt
unfolding check_targets ◌>>=◌ refuse_if
check_targets_accepts names [] h = refl
check_targets_accepts names (entry ∷ rest) h = ground (arith, h, check_targets_accepts names rest)

check_targets_refuses :
    (names : List String) (targets : Dict String) (u : Unit {0})
    → check_targets names targets ≡ good u
    → any (is_refused_target names) targets ≡ false
unfolding check_targets ◌>>=◌ refuse_if
check_targets_refuses names [] u h = refl
check_targets_refuses names (entry ∷ rest) u h =
    ground (arith, h, check_targets_refuses names rest u)

check_allowed_accepts :
    (allowed : List String) (targets : Dict String)
    → any (λ entry. not (contains entry.1 allowed)) targets ≡ false
    → check_allowed allowed targets ≡ good tt
unfolding check_allowed ◌>>=◌ refuse_if
check_allowed_accepts allowed [] h = refl
check_allowed_accepts allowed (entry ∷ rest) h =
    ground (arith, h, check_allowed_accepts allowed rest)

check_allowed_refuses :
    (allowed : List String) (targets : Dict String) (u : Unit {0})
    → check_allowed allowed targets ≡ good u
    → any (λ entry. not (contains entry.1 allowed)) targets ≡ false
unfolding check_allowed ◌>>=◌ refuse_if
check_allowed_refuses allowed [] u h = refl
check_allowed_refuses allowed (entry ∷ rest) u h =
    ground (arith, h, check_allowed_refuses allowed rest u)

abbrev with_targets : Dict String → HarnessConfig → HarnessConfig
with_targets targets h = record h { targets = targets }

module _ (parse : String → Checked ℤ) (parse_url : String → Option Url)
    (read_ssh : Option SshConfig) (left right : Dict String) (same : SameEntries left right) where
  retarget :
      (h t : HarnessConfig)
      → good h ≡ good t
      → good (with_targets right h) ≡ good (with_targets right t)
  retarget h t e = cc

  check_live_order :
      (h t : HarnessConfig)
      → check_live parse read_ssh (with_targets left h) ≡ good t
      → check_live parse read_ssh (with_targets right h) ≡ good (with_targets right t)
  unfolding check_live
  check_live_order h t e =
      let a = accepted_bind _ _ e in
      let w = accepted_bind _ _ a.2 in
      let r = accepted_within _ _ _ w.2 in
      let d = accepted_guard _ _ _ r.2 in
      let allowed = check_allowed_refuses h.allow_restart left a.0 a.1 in
      then_good _
        (check_allowed_accepts h.allow_restart right
          (sym (same (λ entry. not (contains entry.1 h.allow_restart))) ∙ allowed))
        (then_good _ w.1 (then_within _ _ r.1 (then_guard _ _ d.0 (retarget _ t d.1))))

  check_mode_order :
      (mode : HarnessMode) (h t : HarnessConfig)
      → check_mode parse parse_url read_ssh mode (with_targets left h) ≡ good t
      → check_mode parse parse_url read_ssh mode (with_targets right h)
        ≡ good (with_targets right t)
  unfolding check_mode check_reasoner
  check_mode_order HarnessMode.off h t e = retarget _ t e
  check_mode_order HarnessMode.shadow h t e =
      let a = accepted_bind _ _ e in then_good _ a.1 (retarget _ t a.2)
  check_mode_order HarnessMode.live h t e =
      let a = accepted_bind _ _ e in then_good _ a.1 (check_live_order h t a.2)

-- Whatever order Go visits the map of the targets in: a harness block that is accepted in one order
-- is accepted in every other, with the same resolved fields.
pub resolve_harness_order :
    (fold : String → String) (parse : String → Checked ℤ) (parse_url : String → Option Url)
    (names : List String) (read_ssh : Option SshConfig) (h t : HarnessConfig) (right : Dict String)
    → SameEntries h.targets right
    → resolve_harness fold parse parse_url names read_ssh h ≡ good t
    → resolve_harness fold parse parse_url names read_ssh (with_targets right h)
      ≡ good (with_targets right t)
unfolding resolve_harness check_bounds
resolve_harness_order fold parse parse_url names read_ssh h t right same e =
    let m = accepted_within _ _ _ e in
    let b = accepted_bind _ _ m.2 in
    let g = accepted_bind _ _ b.2 in
    let a = accepted_bind _ _ g.2 in
    let named = check_targets_refuses names h.targets g.0 g.1 in
    let moded =
      check_mode_order parse parse_url read_ssh h.targets right same m.0 (harness_defaults h) t
        a.2 in
    then_within _ _ m.1 (
      then_good _ b.1 (
        then_good _
          (check_targets_accepts names right (sym (same (is_refused_target names)) ∙ named))
          (then_good _ a.1 moded)))
