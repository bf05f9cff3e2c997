-- ===== src/Monitor/Alerts.antt =====
-- When internal/monitor/monitor.go saves a status, alerts and hands a status on.
use server_assistant.Prelude.{
  ℕ, zero, suc, String, ◌≡◌, refl, ap, ◌∙◌, Bool, true, false, not, some, List, [], ◌∷◌, ◌++◌, map,
  get_elem?, concat, Bool-cases, inl, inr, if◌then◌else◌,
}
use server_assistant.Prelude.Int.{ℤ, pos, negsuc}
use server_assistant.Core.Domain.{
  Status, down, status_eq, status_text, ProbeResult, CommittedStatus, Alert, derive_status,
}
use server_assistant.Core.Debouncer.{Debouncer, observe}
use server_assistant.Core.Debouncer.Spec.{observe-committed}
use server_assistant.Monitor.{
  ServiceRuntime, HostRuntime, Monitor, Effect, probed, recorded, pruned, save, notified, broadcast,
  sunk, Answers,
}
use server_assistant.Monitor.Gate.{gate-host_measured}
use server_assistant.Monitor.Probe.{
  host_probe_once, is_blind, host_measured, host_message, probe_measured, probe_service, probe_once,
  prune, announce, publish, forced_views,
}

-- The calls that last: a status saved, an alert sent, a status handed to the sink.
abbrev pub lasting : List Effect → List Effect
lasting [] = []
lasting (save cs ∷ es) = save cs ∷ lasting es
lasting (notified a ∷ es) = notified a ∷ lasting es
lasting (sunk cs ∷ es) = sunk cs ∷ lasting es
lasting (probed n ∷ es) = lasting es
lasting (recorded p ∷ es) = lasting es
lasting (pruned n t ∷ es) = lasting es
lasting (broadcast v ∷ es) = lasting es

lasting-append : (xs ys : List Effect) → lasting (xs ++ ys) ≡ lasting xs ++ lasting ys
lasting-append [] ys = refl
lasting-append (probed n ∷ xs) ys = lasting-append xs ys
lasting-append (recorded p ∷ xs) ys = lasting-append xs ys
lasting-append (pruned n t ∷ xs) ys = lasting-append xs ys
lasting-append (broadcast v ∷ xs) ys = lasting-append xs ys
lasting-append (save cs ∷ xs) ys = ap (λ l. save cs ∷ l) (lasting-append xs ys)
lasting-append (notified a ∷ xs) ys = ap (λ l. notified a ∷ l) (lasting-append xs ys)
lasting-append (sunk cs ∷ xs) ys = ap (λ l. sunk cs ∷ l) (lasting-append xs ys)

lasting-prune : (retain : ℤ) (name : String) (now : ℕ) → lasting (prune retain name now) ≡ []
lasting-prune (pos zero) name now = refl
lasting-prune (pos (suc r)) name now = refl
lasting-prune (negsuc r) name now = refl

lasting-forced :
    (b : Bool) (now : ℕ) (svcs : List ServiceRuntime)
    → lasting (map broadcast (forced_views b now svcs)) ≡ []
lasting-forced false now svcs = refl
lasting-forced true now [] = refl
lasting-forced true now (s ∷ svcs) = lasting-forced true now svcs

-- What a commit must leave behind, in this order: the status saved, the alert, and the status
-- handed on if it was saved and a sink is there.
abbrev pub commit_calls : Bool → Bool → CommittedStatus → Alert → List Effect
commit_calls save_ok sink cs a =
    save cs ∷ notified a ∷ (if save_ok then (if sink then sunk cs ∷ [] else []) else [])

lasting-commit :
    (changed save_ok sink : Bool) (cs : CommittedStatus) (a : Alert)
    → lasting (announce changed cs a) ++ lasting (publish changed save_ok sink cs)
      ≡ (if changed then commit_calls save_ok sink cs a else [])
lasting-commit true true true cs a = refl
lasting-commit true true false cs a = refl
lasting-commit true false _ cs a = refl
lasting-commit false true _ cs a = refl
lasting-commit false false _ cs a = refl

abbrev pub service_commit : String → Status → ℕ → CommittedStatus
service_commit name status now = record { service = name; status = status; changed_at = now }

abbrev pub service_alert : String → Status → Alert
service_alert name status = record {
  subject = name;
  status = status;
  message = concat name (concat " is now " (status_text status));
}

abbrev pub host_alert : String → Status → Alert
host_alert name status = record {
  subject = name;
  status = status;
  message = host_message name status;
}

pub lasting-probe_measured :
    (env : Answers) (i : ℕ) (s : ServiceRuntime) (res : ProbeResult) (m : Monitor)
    → let c = (observe s.deb (derive_status res s.threshold)).0.committed in
      lasting (probe_measured env i s res m).1 ≡ (
        if (observe s.deb (derive_status res s.threshold)).1
        then commit_calls env.save_ok m.sink
            (service_commit s.name c env.now)
            (service_alert s.name c)
        else [])
unfolding probe_measured
lasting-probe_measured env i s res m =
    simp (lasting-append, lasting-prune)
      (lasting-commit (observe s.deb (derive_status res s.threshold)).1 env.save_ok m.sink _ _)

lasting-host_measured :
    (env : Answers) (h : HostRuntime) (res : ProbeResult) (m : Monitor)
    → let c = (observe h.deb res.status).0.committed in
      lasting (host_measured env h res m).1 ≡ (
        if (observe h.deb res.status).1
        then commit_calls env.save_ok m.sink (service_commit h.name c env.now) (host_alert h.name c)
        else [])
unfolding host_measured
lasting-host_measured env h res m =
    simp (lasting-append, lasting-prune, lasting-forced)
      (lasting-commit (observe h.deb res.status).1 env.save_ok m.sink _ _)

if_then_committed :
    (d : Debouncer) (s : Status) (f : Status → List Effect)
    → (if (observe d s).1 then f (observe d s).0.committed else [])
      ≡ (if (observe d s).1 then f s else [])
if_then_committed d s f = elim (Bool-cases (observe d s).1) [
  | inl e ↦ rw e (ap f (observe-committed d s ∙ rw e refl))
  | inr e ↦ rw e
]

-- A probe of a service that can be seen and answers: if the debouncer commits the derived status,
-- the status is saved, one alert with it is sent, and it is handed on if it was saved and there is
-- a sink, in this order; if it commits nothing, none of these calls is made.
pub lasting-probe_once :
    (env : Answers) (i : ℕ) (s : ServiceRuntime) (res : ProbeResult) (m : Monitor)
    → is_blind m ≡ false
    → get_elem? m.svcs i ≡ some s
    → env.probe ≡ some res
    → let d = derive_status res s.threshold in
      lasting (probe_once env i m).1 ≡ (
        if (observe s.deb d).1
        then commit_calls env.save_ok m.sink
            (service_commit s.name d env.now)
            (service_alert s.name d)
        else [])
unfolding probe_once probe_service
lasting-probe_once env i s res m sighted at answered =
    let d = derive_status res s.threshold in
    simp (at, sighted, answered)
      (lasting-probe_measured env i s res m
        ∙ if_then_committed s.deb d (λ c.
          commit_calls env.save_ok m.sink (service_commit s.name c env.now)
            (service_alert s.name c)))

-- A probe of the host that answers: the gate reads this answer alone, open exactly if it is not
-- DOWN; if the debouncer commits the answered status, the status is saved, one alert for the host is
-- sent, and it is handed on if it was saved and there is a sink, in this order; if it commits
-- nothing, none of these calls is made.
pub lasting-host_probe_once :
    (env : Answers) (h : HostRuntime) (res : ProbeResult) (m : Monitor)
    → m.host ≡ some h
    → env.probe ≡ some res
    → ((host_probe_once env m).0.gate ≡ not (status_eq res.status down))
      × (lasting (host_probe_once env m).1 ≡ (
          if (observe h.deb res.status).1
          then commit_calls env.save_ok m.sink
              (service_commit h.name res.status env.now)
              (host_alert h.name res.status)
          else []))
unfolding host_probe_once
lasting-host_probe_once env h res m at answered = (
  simp (at, answered) (gate-host_measured env h res m),
  simp (at, answered)
      (lasting-host_measured env h res m
        ∙ if_then_committed h.deb res.status (λ c.
          commit_calls env.save_ok m.sink (service_commit h.name c env.now) (host_alert h.name c))),
)
