-- ===== src/Monitor.antt =====
-- internal/monitor/monitor.go: the monitoring spine. A function takes the state, what the outside
-- answered (the clock, the prober, the store), and returns the new state with the calls that it
-- made, in their order. Log lines are left out.
pub mod Hub
pub mod Probe
pub mod Views
pub mod Gate
pub mod Blackout
pub mod Blind
pub mod Alerts
pub mod Race
use mathlib.Core.List.{foldl}
use server_assistant.Prelude.{
  ℕ, ◌-◌, String, Bool, true, false, not, ◌&&◌, Option, none, some, List, [], ◌∷◌, ◌++◌, map,
  concat, str_eq, ◌==◌, leb, if◌then◌else◌, get_elem?, set,
}
use server_assistant.Prelude.Int.{ℤ, pos, negsuc, int_eq}
use server_assistant.Prelude.Dict.{Dict, lookup, insert}
use server_assistant.Core.Domain.{
  Status, unknown, up, degraded, down, status_eq, status_text, ProbeResult, Alert, ServiceView,
  ProbeSample, CommittedStatus, derive_status,
}
use server_assistant.Core.Debouncer.{Debouncer, new_debouncer, new_debouncer_with_status, observe}

-- What a configuration gives for one service; the prober itself is the input of a probe.
pub record Service : Type 0 where
  pub name : String
  pub threshold : ℕ
  pub poll : ℕ
  pub debounce_n : ℤ

-- `reconfig` is the channel of that name, which holds one signal or none.
pub record ServiceRuntime : Type 0 where
  pub name : String
  pub threshold : ℕ
  pub poll : ℕ
  pub debounce_n : ℤ
  pub deb : Debouncer
  pub reconfig : Bool

pub record HostRuntime : Type 0 where
  pub name : String
  pub poll : ℕ
  pub debounce_n : ℤ
  pub deb : Debouncer

-- `sink` says whether a commit sink is attached.
pub record Monitor : Type 0 where
  pub svcs : List ServiceRuntime
  pub sink : Bool
  pub host : Option HostRuntime
  pub gate : Bool
  pub views : Dict ServiceView
  pub retain : ℤ

-- A call of the monitor to a prober, the store, the notifier, the hub or the commit sink.
pub data Effect : Type 0 where
  probed : String → Effect
  recorded : ProbeSample → Effect
  pruned : String → ℕ → Effect
  save : CommittedStatus → Effect
  notified : Alert → Effect
  broadcast : ServiceView → Effect
  sunk : CommittedStatus → Effect

-- The answers that one probe reads: the clock, the prober (`none` is an error), and whether
-- SaveCommittedStatus succeeds. The errors of the other calls are only logged.
pub record Answers : Type 0 where
  pub now : ℕ
  pub probe : Option ProbeResult
  pub save_ok : Bool

abbrev pub fresh_view : String → ServiceView
fresh_view name = record { name = name; status = unknown; latency = 0; last_checked = none }

abbrev pub unknown_view : ℕ → String → ServiceView
unknown_view now name = record {
  name = name;
  status = unknown;
  latency = 0;
  last_checked = some now;
}

-- setView
abbrev pub set_view : Dict ServiceView → ServiceView → Dict ServiceView
set_view views v = insert v.name v views

abbrev pub start_service : Service → ServiceRuntime
start_service s = record {
  name = s.name;
  threshold = s.threshold;
  poll = s.poll;
  debounce_n = s.debounce_n;
  deb = new_debouncer s.debounce_n;
  reconfig = false;
}

-- New
unfoldable pub new_monitor : List Service → Monitor
new_monitor svcs = record {
  svcs = map start_service svcs;
  sink = false;
  host = none;
  gate = true;
  views = foldl set_view [] (map (λ s. fresh_view s.name) svcs);
  retain = pos 0;
}

-- SetHost
unfoldable pub set_host : String → ℕ → ℤ → Monitor → Monitor
set_host name poll debounce_n m = record m {
  host = some (record {
    name = name;
    poll = poll;
    debounce_n = debounce_n;
    deb = new_debouncer debounce_n;
  });
  views = set_view m.views (fresh_view name);
}

-- The last entry of `incoming` with this name: the map is filled in order.
abbrev pub last_named : String → List Service → Option Service
last_named name [] = none
last_named name (s ∷ rest) = elim (last_named name rest) [
  | some t ↦ some t
  | none ↦ if str_eq s.name name then some s else none
]

-- The body of the loop of Reconfigure, for one service.
abbrev pub reconfigure_service : List Service → ServiceRuntime → ServiceRuntime
reconfigure_service incoming rt = elim (last_named rt.name incoming) [
  | none ↦ rt
  | some next ↦
      let poll_changed = not (rt.poll == next.poll) in
      let same_n = int_eq rt.debounce_n next.debounce_n in
      record rt {
        threshold = next.threshold;
        poll = next.poll;
        deb = if same_n then rt.deb else new_debouncer_with_status next.debounce_n rt.deb.committed;
        debounce_n = if same_n then rt.debounce_n else next.debounce_n;
        reconfig = if poll_changed then true else rt.reconfig;
      }
]

-- Reconfigure
unfoldable pub reconfigure : List Service → Monitor → Monitor
reconfigure incoming m = record m { svcs = map (reconfigure_service incoming) m.svcs }

-- The last saved status with this name: `byName` is filled in order.
abbrev pub last_saved : String → List CommittedStatus → Option CommittedStatus
last_saved name [] = none
last_saved name (cs ∷ rest) = elim (last_saved name rest) [
  | some other ↦ some other
  | none ↦ if str_eq cs.service name then some cs else none
]

abbrev pub saved_view : CommittedStatus → String → ServiceView
saved_view cs name = record {
  name = name;
  status = cs.status;
  latency = 0;
  last_checked = some cs.changed_at;
}

abbrev pub resume_service : List CommittedStatus → ServiceRuntime → ServiceRuntime
resume_service saved s = elim (last_saved s.name saved) [
  | none ↦ s
  | some cs ↦ record s { deb = new_debouncer_with_status s.debounce_n cs.status }
]

abbrev pub resume_view : List CommittedStatus → Dict ServiceView → ServiceRuntime → Dict ServiceView
resume_view saved views s = elim (last_saved s.name saved) [
  | none ↦ views
  | some cs ↦ set_view views (saved_view cs s.name)
]

abbrev pub resume_host : List CommittedStatus → HostRuntime → Monitor → Monitor
resume_host saved h m = elim (last_saved h.name saved) [
  | none ↦ m
  | some cs ↦ record m {
    host = some (record h { deb = new_debouncer_with_status h.debounce_n cs.status });
    gate = not (status_eq cs.status down);
    views = set_view m.views (saved_view cs h.name);
  }
]

-- Resume, after LoadCommittedStatuses has returned `saved`; on its error nothing changes.
unfoldable pub resume : List CommittedStatus → Monitor → Monitor
resume saved m =
    let m' = record m {
      svcs = map (resume_service saved) m.svcs;
      views = foldl (resume_view saved) m.views m.svcs;
    } in
    elim m.host [ none ↦ m' | some h ↦ resume_host saved h m' ]
