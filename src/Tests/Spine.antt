-- ===== src/Tests/Spine.antt =====
-- Concrete runs of internal/core/debounce.go and of internal/monitor/monitor.go.
use server_assistant.Prelude.{
  ◌≡◌, refl, sym, ap, String, Option, true, false, some, none, List, [], ◌∷◌, arith, if◌then◌else◌,
  All, not,
}
use server_assistant.Prelude.Int.{pos}
use server_assistant.Core.Domain.{Status, up, down, status_eq, derive_status, ProbeResult}
use server_assistant.Core.Debouncer.{
  at_least_one, new_debouncer_with_status, new_debouncer, observe,
}
use server_assistant.Core.Debouncer.Spec.{observe_all, committed_by, committed-observe_all}
use server_assistant.Monitor.{
  Service, ServiceRuntime, HostRuntime, Monitor, Answers, new_monitor, set_host,
}
use server_assistant.Monitor.Probe.{probe_once, host_probe_once}
use server_assistant.Monitor.Blind.{IsSilent, probe_once-blind}
use server_assistant.Monitor.Gate.{
  Tick, host_tick, service_tick, reconfigured, run, IsGated, run-IsGated,
}
use server_assistant.Monitor.Blackout.{ClaimsOnly, run_blackout}
use server_assistant.Monitor.Alerts.{
  lasting, commit_calls, service_commit, service_alert, host_alert, lasting-probe_once,
  lasting-host_probe_once,
}
use server_assistant.Core.Domain.{ServiceView}
use server_assistant.Monitor.Hub.{
  HubCall, subscribed, sent, received, cancelled, new_hub, hub_run, hub_step, subscribe, cancel,
  broadcast_all, receive_one,
}
use server_assistant.Monitor.Hub.Listeners.{heard, Hears, listener-Hears}
use server_assistant.Monitor.Race.{overtaken, overtaken_alerts}

abbrev history : List Status
history = down ∷ down ∷ up ∷ down ∷ []

committed_twice_down : (observe_all (new_debouncer_with_status (pos 2) up) history).committed ≡ down
unfolding observe_all observe new_debouncer_with_status status_eq
committed_twice_down = refl

committed-observe_all_example :
    (observe_all (new_debouncer_with_status (pos 2) up) history).committed
    ≡ committed_by (at_least_one (pos 2)) up history
committed-observe_all_example = committed-observe_all (pos 2) up history

-- A service that commits on one probe, last committed UP, and its host.
abbrev plex : ServiceRuntime
plex = record {
  name = "plex";
  threshold = 500;
  poll = 30;
  debounce_n = pos 1;
  deb = record { n = 1; committed = up; candidate = up; streak = 4 };
  reconfig = false;
}

abbrev tower : HostRuntime
tower = record {
  name = "tower";
  poll = 10;
  debounce_n = pos 1;
  deb = record { n = 1; committed = up; candidate = up; streak = 2 };
}

abbrev seen : Monitor
seen = record {
  svcs = plex ∷ [];
  sink = true;
  host = some tower;
  gate = true;
  views = [];
  retain = pos 100;
}

abbrev unseen : Monitor
unseen = record seen { gate = false }

abbrev is_down : ProbeResult
is_down = record { status = down; latency = 7 }

abbrev answers_down : Answers
answers_down = record { now = 1000; probe = some is_down; save_ok = true }

abbrev answers_error : Answers
answers_error = record { now = 2000; probe = none; save_ok = true }

probe_once-blind_example : IsSilent plex unseen (probe_once answers_down 0 unseen)
probe_once-blind_example = probe_once-blind answers_down 0 plex unseen refl refl

abbrev ticks : List Tick
ticks =
    host_tick answers_down
    ∷ service_tick answers_down 0
    ∷ reconfigured []
    ∷ host_tick answers_error
    ∷ []

abbrev config : List Service
config = record { name = "plex"; threshold = 500; poll = 30; debounce_n = pos 1 } ∷ []

abbrev booted : Monitor
booted = set_host "tower" 10 (pos 2) (new_monitor config)

abbrev name_of : Option HostRuntime → String
name_of none = ""
name_of (some h) = h.name

booted-IsGated : IsGated booted
unfolding set_host new_monitor new_debouncer new_debouncer_with_status
booted-IsGated = record {
  apart = λ h e. rw (sym (ap name_of e)) refl;
  blind = λ k e. ground (arith, e);
  open_alone = λ e. refl;
}

run-IsGated_example : IsGated (run ticks booted).0
run-IsGated_example = run-IsGated ticks booted booted-IsGated

run_blackout_example :
    ((run ticks unseen).0.gate ≡ false) × All (ClaimsOnly "tower") (run ticks unseen).1
run_blackout_example =
    run_blackout "tower" ticks unseen
      (λ res e. ground (arith, e), (tt, (tt, (λ res e. ground (arith, e), tt))))
      (record { closed = refl; host = tower; hosted = refl; named = refl })

lasting-probe_once_example :
    let d = derive_status is_down 500 in
    lasting (probe_once answers_down 0 seen).1 ≡ (
      if (observe plex.deb d).1
      then commit_calls true true (service_commit "plex" d 1000) (service_alert "plex" d)
      else [])
lasting-probe_once_example = lasting-probe_once answers_down 0 plex is_down seen refl refl refl

lasting-host_probe_once_example :
    ((host_probe_once answers_down seen).0.gate ≡ not (status_eq down down))
    × (lasting (host_probe_once answers_down seen).1 ≡ (
        if (observe tower.deb down).1
        then commit_calls true true (service_commit "tower" down 1000) (host_alert "tower" down)
        else []))
lasting-host_probe_once_example = lasting-host_probe_once answers_down tower is_down seen refl refl

overtaken_alerts_example :
    let (m', effects) = overtaken answers_down tower is_down answers_down 0 plex is_down seen in
    (m'.gate ≡ false)
    × (lasting effects
        ≡ commit_calls true true (service_commit "plex" down 1000) (service_alert "plex" down))
overtaken_alerts_example =
    overtaken_alerts answers_down tower is_down answers_down 0 plex is_down seen refl refl
      (omega arith) (λ e. cc)

abbrev plex_view : ServiceView
plex_view = record { name = "plex"; status = up; latency = 3; last_checked = some 5 }

abbrev plex_gone : ServiceView
plex_gone = record { name = "plex"; status = down; latency = 3; last_checked = some 9 }

-- A listener with a view in its channel, and then another one that never reads.
abbrev hub_before : List HubCall
hub_before = subscribed ∷ sent plex_view ∷ []

abbrev hub_after : List HubCall
hub_after =
    subscribed ∷ sent plex_gone ∷ received 0 ∷ received 0 ∷ cancelled 1 ∷ sent plex_view ∷ []

hub_heard : heard 0 hub_after (hub_run hub_before new_hub) ≡ plex_view ∷ plex_gone ∷ []
unfolding heard hub_run hub_step subscribe cancel broadcast_all receive_one
hub_heard = refl

listener-Hears_example : Hears 0 hub_after (hub_run hub_before new_hub) (plex_view ∷ [])
unfolding hub_run hub_step subscribe broadcast_all
listener-Hears_example = listener-Hears hub_before hub_after 0 (plex_view ∷ []) refl refl
