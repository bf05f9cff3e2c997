-- ===== src/Daemon/Starts.antt =====
-- cmd/server-assistant/main.go starts on what internal/config accepts.
use server_assistant.Prelude.{
  String, ◌≡◌, ◌⊎◌, inl, inr, refl, ap, ◌∙◌, Bool, true, false, not, Option, none, some, List, [],
  ◌∷◌, arith, Bool-cases, if◌then◌else◌,
}
use server_assistant.Core.Domain.{CommittedStatus}
use server_assistant.Core.Harness.{HarnessMode, parse_harness_mode, HarnessCycle}
use server_assistant.Harness.Engine.{is_off, reconcile, reconcile_cycle}
use server_assistant.Config.Checked.{
  Refusal, Checked, good, within, then_good, then_guard, then_within,
}
use server_assistant.Config.Texts.{is_empty}
use server_assistant.Config.Records.{SshConfig, HarnessConfig, Config}
use server_assistant.Config.Library.{Library}
use server_assistant.Config.Blocks.{is_configured}
use server_assistant.Config.HarnessBlock.{required}
use server_assistant.Config.Validate.{is_set, or_empty}
use server_assistant.Config.Load.{load}
use server_assistant.Config.Sound.Loaded.{load-IsSound, WhenSet}
use server_assistant.Daemon.Wiring.{
  Ports, Notifier, new_notifier, Runner, private_key, parse_host_key, ssh_runner_for, runner_if,
  reconciled, reconcile_error, Engine, build_engine, wire_engine, Daemon, wire, start_daemon,
}

-- What ssh_runner_for needs of one block: a host key, if there is one, is an authorized-keys line,
-- and a key file, if there is one, can be read.
pub record IsUsable (lib : Library) (ports : Ports) (s : SshConfig) : Type 0 where
  pub host_key : is_empty s.host_key ≡ false → ports.is_authorized_key s.host_key ≡ true
  pub key_file :
      is_empty s.key_file ≡ false → (key : String) × (lib.read_file s.key_file ≡ good key)

-- The store answers, and what this configuration names can be used: its database, the Telegram bot, if
-- one is configured, and the SSH credentials.
pub record IsReady (lib : Library) (ports : Ports) (c : Config) : Type 0 where
  pub opened : ports.open_store c.database_path ≡ good tt
  pub migrated : ports.migrate ≡ good tt
  pub telegram :
      is_configured c.telegram ≡ true
      → ports.new_telegram c.telegram.bot_token c.telegram.chat_id ≡ good tt
  pub reads : WhenSet (IsUsable lib ports) c.ssh
  pub writes : WhenSet (IsUsable lib ports) (or_empty c.harness).write_ssh
  pub statuses : (saved : List CommittedStatus) × (ports.saved ≡ good saved)
  pub listed : (cycles : List HarnessCycle) × (ports.cycles ≡ good cycles)
  pub saves : (cycle : HarnessCycle) → ports.save_cycle cycle ≡ true

reconcile_succeeds :
    (ok : HarnessCycle → Bool) (cs : List HarnessCycle)
    → ((c : HarnessCycle) → ok c ≡ true)
    → (reconcile ok cs).1 ≡ true
unfolding reconcile
reconcile_succeeds ok [] all = refl
reconcile_succeeds ok (c ∷ cs) all =
    ground (arith, all (reconcile_cycle c).0, reconcile_succeeds ok cs all)

no_reconcile_error :
    (ports : Ports) (r : List HarnessCycle × Bool) → r.1 ≡ true → reconcile_error ports r ≡ good tt
no_reconcile_error ports (tried, true) h = refl
no_reconcile_error ports (tried, false) h = cc

within_accepted {ℓ} :
    {A : Type ℓ} (frame : Refusal → Refusal) (m : Checked A) {a : A}
    → m ≡ good a
    → within frame m ≡ good a
unfolding within
within_accepted frame m e = rw e refl

required_accepted {ℓ} :
    {A : Type ℓ} (o : Option A) (why : Refusal) {a : A} → o ≡ some a → required o why ≡ good a
required_accepted o why e = rw e refl

no_runner_missing :
    (runner : Option Runner) (mode : HarnessMode)
    → is_off mode ≡ false
    → (is_set runner ≡ true) ⊎ (mode ≡ HarnessMode.off)
    → not (is_set runner) ≡ false
no_runner_missing runner mode on (inl there) = ap not there
no_runner_missing runner mode on (inr off) = absurd (ground (arith, on, off))

enabled_here :
    (ssh : Option SshConfig) (r : Option Runner) (o : Option HarnessMode) (mode : HarnessMode)
    → is_set r ≡ is_set ssh
    → o ≡ some mode
    → (is_set ssh ≡ true) ⊎ (o ≡ some HarnessMode.off)
    → (is_set r ≡ true) ⊎ (mode ≡ HarnessMode.off)
enabled_here ssh r o mode same known (inl there) = inl (same ∙ there)
enabled_here ssh r o mode same known (inr off) = inr (cc)

module _ (lib : Library) (ports : Ports) where
  reads_key : (s : SshConfig) → IsUsable lib ports s → (k : String) × (private_key lib s ≡ good k)
  unfolding within
  reads_key s usable = elim (Bool-cases (is_empty s.key_file)) [
    | inl e ↦ ("", ground (arith, e))
    | inr e ↦ let (k, read) = usable.key_file e in (k, ground (arith, e, read))
  ]

  parses_host_key :
      (s : SshConfig)
      → IsUsable lib ports s
      → (pinned : Bool) × (parse_host_key ports s.host_key ≡ good pinned)
  parses_host_key s usable = elim (Bool-cases (is_empty s.host_key)) [
    | inl e ↦ (false, ground (arith, e))
    | inr e ↦ (true, ground (arith, e, usable.host_key e))
  ]

  runs :
      (o : Option SshConfig)
      → WhenSet (IsUsable lib ports) o
      → (r : Option Runner) × (runner_if lib ports o ≡ good r) × (is_set r ≡ is_set o)
  unfolding ssh_runner_for
  runs none usable = (none, refl, refl)
  runs (some s) usable =
      let (k, read) = reads_key s usable in
      let (p, parsed) = parses_host_key s usable in
      (_, then_good _ (then_good _ read (then_good _ parsed refl)) refl, refl)

module _ (lib : Library) (ports : Ports) (c : Config) (ready : IsReady lib ports c) where
  notifies : (n : Notifier) × (new_notifier ports c.telegram ≡ good n)
  unfolding new_notifier
  notifies = elim (Bool-cases (is_configured c.telegram)) [
    | inl e ↦ rw (e, if◌then◌else◌) (_, then_good _ (ready.telegram e) refl)
    | inr e ↦ rw (e, if◌then◌else◌) (_, refl)
  ]

  reconciles : reconciled ports ≡ good tt
  unfolding reconciled
  reconciles =
      let (cs, listed) = ready.listed in
      let done = reconcile_succeeds ports.save_cycle cs ready.saves in
      within_accepted _ _
        (then_within _ _ listed (no_reconcile_error ports (reconcile ports.save_cycle cs) done))

  builds :
      (runner : Option Runner) (mode : HarnessMode)
      → (is_set runner ≡ true) ⊎ (mode ≡ HarnessMode.off)
      → (e : Option Engine) × (wire_engine lib ports c runner mode ≡ good e)
  unfolding wire_engine build_engine
  builds runner HarnessMode.off there = (none, refl)
  builds runner HarnessMode.shadow there =
      let (w, wired, _) = runs lib ports (or_empty c.harness).write_ssh ready.writes in
      (
        _,
        then_guard _ _ (no_runner_missing runner HarnessMode.shadow refl there)
            (then_good _ wired (then_good _ reconciles refl)),
      )
  builds runner HarnessMode.live there =
      let (w, wired, _) = runs lib ports (or_empty c.harness).write_ssh ready.writes in
      (
        _,
        then_guard _ _ (no_runner_missing runner HarnessMode.live refl there)
            (then_good _ wired (then_good _ reconciles refl)),
      )

  -- Of a configuration that Load accepts and that has an ssh block or a harness whose mode is off: the
  -- daemon starts on it, if the store opens its database and answers, a Telegram notifier can be built
  -- for its bot, if it has one, and in each of its two SSH blocks that is there the host key, if one is
  -- given, is an authorized-keys line and the key file, if one is given, can be read.
  pub daemon_starts :
      (path : String)
      → load lib path ≡ good c
      → (is_set c.ssh ≡ true)
        ⊎ (parse_harness_mode lib.fold (or_empty c.harness).mode ≡ some HarnessMode.off)
      → (d : Daemon) × (start_daemon lib ports path ≡ good (c, d))
  unfolding start_daemon wire
  daemon_starts path loaded enabled =
      let sound = load-IsSound lib path c loaded in
      let (h, set, resolved) = sound.harness in
      let known : parse_harness_mode lib.fold (or_empty c.harness).mode ≡ some resolved.mode =
        ap (λ (x : Option HarnessConfig). parse_harness_mode lib.fold (or_empty x).mode) set
        ∙ resolved.known in
      let (n, notified) = notifies in
      let (r, run, same) = runs lib ports c.ssh ready.reads in
      let (saved, listed) = ready.statuses in
      let (e, built) =
        builds r resolved.mode (enabled_here c.ssh r _ resolved.mode same known enabled) in
      (
        _,
        then_good _ loaded (
            then_good _
              (then_good _ ready.opened (
                then_good _ ready.migrated (
                  then_good _ notified (
                    then_good _ run (
                      then_good _ (required_accepted _ _ known)
                        (then_good _ built (then_good _ listed refl)))))))
              refl),
      )
