-- ===== src/Daemon/Started.antt =====
-- A started daemon was wired from a configuration that Load accepted.
use mathlib.Core.Path.{subst}
use server_assistant.Prelude.{String, ◌≡◌, ap, ◌∙◌}
use server_assistant.Config.Checked.{good, accepted_bind}
use server_assistant.Config.Records.{Config}
use server_assistant.Config.Library.{Library}
use server_assistant.Config.Sound.Loaded.{IsSound, load-IsSound}
use server_assistant.Daemon.Wiring.{Ports, Daemon, wire, start_daemon}

pub started_daemon :
    (lib : Library) (ports : Ports) (path : String) (c : Config) (d : Daemon)
    → start_daemon lib ports path ≡ good (c, d)
    → (wire lib ports c ≡ good d) × IsSound lib c
unfolding start_daemon
started_daemon lib ports path c d started =
    let l = accepted_bind _ _ started in
    let w = accepted_bind _ _ l.2 in
    let same_config : l.0 ≡ c = cc w.2 in
    let same_daemon : w.0 ≡ d = cc w.2 in
    (
      subst (λ x. wire lib ports x ≡ good d) same_config (w.1 ∙ ap good same_daemon),
      subst (IsSound lib) same_config (load-IsSound lib path l.0 l.1),
    )
