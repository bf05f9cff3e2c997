-- ===== src/Monitor/Blackout.antt =====
-- What internal/monitor/monitor.go claims of its services while the host cannot be reached.
use mathlib.Core.Path.{subst}
use server_assistant.Prelude.{
  ℕ, zero, suc, String, ◌≡◌, ◌⊎◌, refl, Bool, true, false, not, ◌&&◌, some, List, [], ◌∷◌, map,
  arith, get_elem?, All, All-append, Bool-cases, Option-cases, inl, inr,
}
use server_assistant.Prelude.Int.{ℤ, pos, negsuc}
use server_assistant.Core.Domain.{
  unknown, down, status_eq, status_eq_iff, ProbeResult, CommittedStatus, Alert,
}
use server_assistant.Core.Debouncer.{observe}
use server_assistant.Monitor.{
  ServiceRuntime, HostRuntime, Monitor, Effect, probed, recorded, pruned, save, notified, broadcast,
  sunk, Answers, reconfigure,
}
use server_assistant.Monitor.Probe.{
  is_blind, view_status, host_measured, host_probe_once, probe_blind, probe_service, probe_once,
  prune, announce, publish, forced_views,
}
use server_assistant.Monitor.Gate.{Tick, host_tick, service_tick, reconfigured, tick, run}

-- A call about the subject `name`, or the broadcast of an UNKNOWN view.
abbrev pub ClaimsOnly : String → Effect → Type 0
ClaimsOnly name (probed n) = n ≡ name
ClaimsOnly name (recorded p) = p.service ≡ name
ClaimsOnly name (pruned n cutoff) = n ≡ name
ClaimsOnly name (save cs) = cs.service ≡ name
ClaimsOnly name (notified a) = a.subject ≡ name
ClaimsOnly name (broadcast v) = (v.name ≡ name) ⊎ (v.status ≡ unknown)
ClaimsOnly name (sunk cs) = cs.service ≡ name

-- A tick that does not find the host reachable: its prober fails, or answers DOWN.
abbrev pub StaysBlind : Tick → Type 0
StaysBlind (host_tick env) = (res : ProbeResult) → env.probe ≡ some res → res.status ≡ down
StaysBlind _ = Unit

forced_claims :
    (name : String) (b : Bool) (now : ℕ) (svcs : List ServiceRuntime)
    → All (ClaimsOnly name) (map broadcast (forced_views b now svcs))
forced_claims name false now svcs = tt
forced_claims name true now [] = tt
forced_claims name true now (s ∷ svcs) = (inr refl, forced_claims name true now svcs)

prune_claims :
    (retain : ℤ) (name : String) (now : ℕ) → All (ClaimsOnly name) (prune retain name now)
prune_claims (pos zero) name now = tt
prune_claims (pos (suc r)) name now = (refl, tt)
prune_claims (negsuc r) name now = tt

announce_claims :
    (changed : Bool) (cs : CommittedStatus) (a : Alert)
    → a.subject ≡ cs.service
    → All (ClaimsOnly cs.service) (announce changed cs a)
announce_claims true cs a e = (refl, (e, tt))
announce_claims false cs a e = tt

publish_claims :
    (changed persisted sink : Bool) (cs : CommittedStatus)
    → All (ClaimsOnly cs.service) (publish changed persisted sink cs)
publish_claims true true true cs = (refl, tt)
publish_claims true true false cs = tt
publish_claims true false _ cs = tt
publish_claims false _ _ cs = tt

host_measured_claims :
    (env : Answers) (h : HostRuntime) (res : ProbeResult) (m : Monitor)
    → All (ClaimsOnly h.name) (host_measured env h res m).1
unfolding host_measured
host_measured_claims env h res m =
    let closing = m.gate && not (not (status_eq res.status down)) in
    (
      refl,
      All-append (ClaimsOnly h.name) (prune m.retain h.name env.now) _
          (prune_claims m.retain h.name env.now)
          (All-append (ClaimsOnly h.name) (map broadcast (forced_views closing env.now m.svcs)) _
            (forced_claims h.name closing env.now m.svcs)
            (All-append (ClaimsOnly h.name) (announce _ _ _) _
              (announce_claims (observe h.deb res.status).1 _ _ refl)
              (inl refl, publish_claims (observe h.deb res.status).1 env.save_ok m.sink _))),
    )

-- The gate is closed, by the host of this name.
pub record InBlackout (name : String) (m : Monitor) : Type 0 where
  pub closed : m.gate ≡ false
  pub host : HostRuntime
  pub hosted : m.host ≡ some host
  pub named : host.name ≡ name

-- What a call leaves: the blackout goes on, and only the host was spoken of.
record KeepsBlackout (name : String) (r : Monitor × List Effect) : Type 0 where
  still : InBlackout name r.0
  claims : All (ClaimsOnly name) r.1

probe_blind-KeepsBlackout :
    (name : String) (now : ℕ) (s : ServiceRuntime) (m : Monitor)
    → InBlackout name m
    → KeepsBlackout name (probe_blind now s m)
unfolding probe_blind
probe_blind-KeepsBlackout name now s m b =
    elim (Bool-cases (status_eq (view_status m.views s.name) unknown)) [
      | inl e ↦ rw e (record { still = b; claims = tt })
      | inr e ↦ rw e (record {
        still = record { closed = b.closed; host = b.host; hosted = b.hosted; named = b.named };
        claims = (inr refl, tt);
      })
    ]

blackout_is_blind : (name : String) (m : Monitor) → InBlackout name m → is_blind m ≡ true
blackout_is_blind name m b = ground (arith, b.hosted, b.closed)

probe_once-KeepsBlackout :
    (name : String) (env : Answers) (i : ℕ) (m : Monitor)
    → InBlackout name m
    → KeepsBlackout name (probe_once env i m)
unfolding probe_once probe_service
probe_once-KeepsBlackout name env i m b = elim (Option-cases (get_elem? m.svcs i)) [
  | inl e ↦ rw e (record { still = b; claims = tt })
  | inr (s, e) ↦ simp (e, blackout_is_blind name m b) (probe_blind-KeepsBlackout name env.now s m b)
]

host_measured-KeepsBlackout :
    (env : Answers) (h : HostRuntime) (res : ProbeResult) (m : Monitor)
    → res.status ≡ down
    → InBlackout h.name (host_measured env h res m).0
unfolding host_measured
host_measured-KeepsBlackout env h res m e = record {
  closed = ground (arith, e, status_eq_iff res.status down);
  host = record h { deb = (observe h.deb res.status).0 };
  hosted = refl;
  named = refl;
}

abbrev answer_of : Answers → HostRuntime → ProbeResult → Monitor → Monitor × List Effect
answer_of env h res m = let (m', es) = host_measured env h res m in (m', probed h.name ∷ es)

answer_of-KeepsBlackout :
    (env : Answers) (h : HostRuntime) (res : ProbeResult) (m : Monitor)
    → res.status ≡ down
    → KeepsBlackout h.name (answer_of env h res m)
answer_of-KeepsBlackout env h res m e = record {
  still = host_measured-KeepsBlackout env h res m e;
  claims = (refl, host_measured_claims env h res m);
}

host_probe_once-KeepsBlackout :
    (name : String) (env : Answers) (m : Monitor)
    → ((res : ProbeResult) → env.probe ≡ some res → res.status ≡ down)
    → InBlackout name m
    → KeepsBlackout name (host_probe_once env m)
unfolding host_probe_once
host_probe_once-KeepsBlackout name env m blind b = elim (Option-cases env.probe) [
  | inl failed ↦ simp (b.hosted, failed) (record { still = b; claims = (b.named, tt) })
  | inr (res, answered) ↦
      simp (b.hosted, answered)
        (subst (λ n. KeepsBlackout n (answer_of env b.host res m)) b.named
          (answer_of-KeepsBlackout env b.host res m (blind res answered)))
]

tick-KeepsBlackout :
    (name : String) (t : Tick) (m : Monitor)
    → StaysBlind t
    → InBlackout name m
    → KeepsBlackout name (tick t m)
unfolding tick reconfigure
tick-KeepsBlackout name (host_tick env) m blind b = host_probe_once-KeepsBlackout name env m blind b
tick-KeepsBlackout name (service_tick env i) m blind b = probe_once-KeepsBlackout name env i m b
tick-KeepsBlackout name (reconfigured svcs) m blind b = record {
  still = record { closed = b.closed; host = b.host; hosted = b.hosted; named = b.named };
  claims = tt;
}

-- While the host stays unreachable (each of its probes fails or answers DOWN), whatever ticks the
-- loops make, one at a time: the gate stays closed, and of anything but the host no prober is
-- called, no sample is recorded or pruned, no status is saved or handed on, no alert is sent, and
-- nothing but UNKNOWN is broadcast.
pub run_blackout :
    (name : String) (ts : List Tick) (m : Monitor)
    → All StaysBlind ts
    → InBlackout name m
    → ((run ts m).0.gate ≡ false) × All (ClaimsOnly name) (run ts m).1
unfolding run
run_blackout name [] m blind b = (b.closed, tt)
run_blackout name (t ∷ ts) m (first, others) b =
    let k = tick-KeepsBlackout name t m first b in
    let (closed, rest) = run_blackout name ts (tick t m).0 others k.still in
    (closed, All-append (ClaimsOnly name) (tick t m).1 _ k.claims rest)
