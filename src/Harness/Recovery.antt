-- ===== src/Harness/Recovery.antt =====
-- Who may call a cycle recovered in internal/harness/harness.go: the monitoring spine alone.
pub mod Runs
use server_assistant.Prelude.{
  ℕ, String, ◌≡◌, refl, sym, ap, ◌∙◌, inl, inr, Bool, true, false, Option, none, some, List, [],
  ◌∷◌, arith, str_eq, eq_iff, Bool-cases, Option-cases, not, ◌&&◌, ◌||◌, if◌then◌else◌, any, leb,
}
use mathlib.Core.Path.{subst}
use server_assistant.Prelude.Dict.{Dict, lookup, insert, erase, lookup-insert, lookup-erase}
use server_assistant.Core.Domain.{CommittedStatus, up, status_eq}
use server_assistant.Core.Harness.{HarnessCycle, Approval, Outcome, action_none}
use server_assistant.Harness.{
  Options, ApprovalMsg, CycleState, Harness, dispatch, new_cycle, diagnosis_sweep, diagnose,
  validate_proposal, Reasoned, failed, replied,
}
use server_assistant.Harness.Engine.{
  is_some, rejects, watch, decide, outcome_pending, signal_active, note_up,
}
use server_assistant.Harness.Run.{
  Place, idle, started, proposing, announcing, waiting, expiring, decided, dispatched, settling,
  watching, closing, cooling, leaving, Event, observed, began, stored, restarted, Sys, World, go,
  move, commit, operator, halting, rearming, going, run, start, Move, investigate,
  already_recovered, from_started, from_proposing, from_announcing, from_waiting, from_expiring,
  from_decided, from_dispatched, from_settling, from_watching, from_closing, from_cooling,
  from_leaving, choice, log_saved, is_approved,
}

abbrev pub is_recovered : Outcome → Bool
is_recovered Outcome.recovered = true
is_recovered _ = false

-- The spine has committed UP for this service.
abbrev pub reports_up : String → Event → Bool
reports_up k (observed cs) = str_eq cs.service k && status_eq cs.status up
reports_up k _ = false

-- The same, with a change at this time or later.
abbrev pub reports_up_since : String → ℕ → Event → Bool
reports_up_since k at (observed cs) =
    str_eq cs.service k && (status_eq cs.status up && leb at cs.changed_at)
reports_up_since k at _ = false

-- An UP that came after the last restart: the log has the latest first.
abbrev pub up_after_restart : String → List Event → Bool
up_after_restart k [] = false
up_after_restart k (restarted t ∷ log) = false
up_after_restart k (e ∷ log) = reports_up k e || up_after_restart k log

-- An UP whose change is no earlier than the approval.
abbrev pub up_since_approval : String → Option ℕ → List Event → Bool
up_since_approval k none log = false
up_since_approval k (some at) log = any (reports_up_since k at) log

-- What a recovery is earned by.
abbrev pub is_answered : HarnessCycle → List Event → Bool
is_answered c log = up_after_restart c.subject log || up_since_approval c.subject c.approved_at log

-- Every saved record that says recovered comes after an UP that answers its restart.
abbrev pub IsEarned : List Event → Type 0
IsEarned [] = Unit
IsEarned (stored c ok ∷ log) =
    (is_recovered c.outcome ≡ true → is_answered c log ≡ true) × IsEarned log
IsEarned (e ∷ log) = IsEarned log

-- An approval carries its time.
abbrev IsTimed : Approval → Option ℕ → Type 0
IsTimed d at = is_approved d ≡ true → is_some at ≡ true

abbrev Timed : Option ApprovalMsg → Type 0
Timed none = Unit
Timed (some msg) = IsTimed msg.decision msg.at

-- What an engine may hold: signals and times of recoveries that the spine has reported.
abbrev Signals : Option CycleState → List Event → Type 0
Signals none log = Unit
Signals (some st) log =
    (st.outcome ≡ true → up_after_restart st.subject log ≡ true)
    × (is_recovered st.cycle.outcome ≡ false)
    × Timed st.decision

abbrev About : String → Option CycleState → Type 0
About k none = Unit
About k (some st) = st.subject ≡ k

-- No signal of an outcome is awaited or there.
abbrev Deaf : Option CycleState → Type 0
Deaf none = Unit
Deaf (some st) = (st.awaiting_outcome ≡ false) × (st.outcome ≡ false)

-- A cycle that does not say recovered, and is the active one.
abbrev Plain : HarnessCycle → Option CycleState → Type 0
Plain c a = (is_recovered c.outcome ≡ false) × About c.subject a

-- The same before its restart.
abbrev Early : HarnessCycle → Option CycleState → Type 0
Early c a = Plain c a × Deaf a

abbrev AtPlace : Place → Option CycleState → List Event → Type 0
AtPlace idle a log = Unit
AtPlace leaving a log = Unit
AtPlace (started id cs) a log = About cs.service a × Deaf a
AtPlace (proposing c) a log = Early c a
AtPlace (announcing c) a log = Early c a
AtPlace (waiting c) a log = Early c a
AtPlace (expiring c) a log = Early c a
AtPlace (decided c msg) a log = Early c a × IsTimed msg.decision msg.at
AtPlace (dispatched c) a log = Plain c a × (is_some c.approved_at ≡ true)
AtPlace (watching c) a log = Plain c a
AtPlace (settling c already) a log =
    Plain c a × (already ≡ true → up_since_approval c.subject c.approved_at log ≡ true)
AtPlace (closing c) a log = is_recovered c.outcome ≡ true → is_answered c log ≡ true
AtPlace (cooling c) a log = Unit

record IsHonest (s : Sys) : Type 0 where
  times :
      (k : String) (t at : ℕ)
      → lookup k s.harness.last_up ≡ some t
      → leb at t ≡ true
      → any (reports_up_since k at) s.log ≡ true
  signals : Signals s.harness.active s.log
  at : AtPlace s.place s.harness.active s.log
  earned : IsEarned s.log

-- Diagnosis and validation keep the subject and the outcome of a cycle.
record SameCase (c c' : HarnessCycle) : Type 0 where
  subject : c'.subject ≡ c.subject
  outcome : c'.outcome ≡ c.outcome

diagnose-SameCase : (r : Reasoned) (c : HarnessCycle) → SameCase c (diagnose r c)
unfolding diagnose
diagnose-SameCase (failed e) c = record { subject = refl; outcome = refl }
diagnose-SameCase (replied r) c = record { subject = refl; outcome = refl }

validate_proposal-SameCase : (o : Options) (c : HarnessCycle) → SameCase c (validate_proposal o c)
unfolding validate_proposal
validate_proposal-SameCase o c =
    elim (Option-cases (lookup c.diagnosis.proposed.subject o.targets)) [
      | inl e ↦ simp e (record { subject = ground arith; outcome = ground arith })
      | inr (t, e) ↦ simp e (record { subject = ground arith; outcome = ground arith })
    ]

SameCase-trans : (a b c : HarnessCycle) → SameCase a b → SameCase b c → SameCase a c
SameCase-trans a b c p q = record {
  subject = q.subject ∙ p.subject;
  outcome = q.outcome ∙ p.outcome;
}

investigate-SameCase : (o : Options) (w : World) (c : HarnessCycle) → SameCase c (investigate o w c)
investigate-SameCase o w c =
    let c1 = record c { tool_calls = diagnosis_sweep o w.expired w.answer c.subject } in
    SameCase-trans c (diagnose w.reasoned c1) (investigate o w c)
      (let d = diagnose-SameCase w.reasoned c1 in
        record { subject = d.subject; outcome = d.outcome })
      (validate_proposal-SameCase o (diagnose w.reasoned c1))

module _ (o : Options) (w : World) (s : Sys) (i : IsHonest s) where
  going_started :
      (id : String) (cs : CommittedStatus)
      → s.place ≡ started id cs
      → IsHonest (from_started o w id cs s)
  unfolding from_started
  going_started id cs e =
      let same = investigate-SameCase o w (new_cycle o id cs w.now) in
      record {
        times = ground (arith, e);
        signals = ground (arith, e, i.signals);
        at = ground (arith, e, i.at, same.subject, same.outcome);
        earned = ground (arith, e, i.earned, same.subject, same.outcome);
      }

  going_decided :
      (c : HarnessCycle) (msg : ApprovalMsg)
      → s.place ≡ decided c msg
      → IsHonest (from_decided w c msg s)
  unfolding from_decided dispatch
  going_decided c msg e = record {
    times = ground (arith, e, i.at);
    signals = ground (arith, e, i.signals);
    at = ground (arith, e, i.at);
    earned = ground (arith, e, i.at, i.earned);
  }

  going_proposing : (c : HarnessCycle) → s.place ≡ proposing c → IsHonest (from_proposing c s)
  unfolding from_proposing
  going_proposing c e = record {
    times = ground (arith, e, i.at);
    signals = ground (arith, e, i.at, i.signals);
    at = ground (arith, e, i.at);
    earned = ground (arith, e, i.at, i.earned);
  }

  going_announcing : (c : HarnessCycle) → s.place ≡ announcing c → IsHonest (from_announcing w c s)
  unfolding from_announcing
  going_announcing c e = record {
    times = ground (arith, e, i.at);
    signals = ground (arith, e, i.at, i.signals);
    at = ground (arith, e, i.at);
    earned = ground (arith, e, i.at, i.earned);
  }

  going_waiting : (c : HarnessCycle) → s.place ≡ waiting c → IsHonest (from_waiting w c s)
  unfolding from_waiting
  going_waiting c e = record {
    times = ground (arith, e, i.at);
    signals = ground (arith, e, i.at, i.signals);
    at = ground (arith, e, i.at);
    earned = ground (arith, e, i.at, i.earned);
  }

  going_expiring : (c : HarnessCycle) → s.place ≡ expiring c → IsHonest (from_expiring c s)
  unfolding from_expiring
  going_expiring c e = record {
    times = ground (arith, e, i.at);
    signals = ground (arith, e, i.at, i.signals);
    at = ground (arith, e, i.at);
    earned = ground (arith, e, i.at, i.earned);
  }

  going_dispatched : (c : HarnessCycle) → s.place ≡ dispatched c → IsHonest (from_dispatched c s)
  unfolding from_dispatched
  going_dispatched c e = record {
    times = ground (arith, e, i.at);
    signals = ground (arith, e, i.at, i.signals);
    at = elim (Option-cases (lookup c.subject s.harness.last_up)) [
      | inl l ↦ ground (arith, e, i.at, l)
      | inr (t, l) ↦ elim (Option-cases c.approved_at) [
        | inl n ↦ ground (arith, e, i.at, l, n)
        | inr (at, n) ↦ ground (arith, e, i.at, l, n, i.times c.subject t at)
      ]
    ];
    earned = ground (arith, e, i.at, i.earned);
  }

  going_settling :
      (c : HarnessCycle) (already : Bool)
      → s.place ≡ settling c already
      → IsHonest (from_settling w c already s)
  unfolding from_settling
  going_settling c already e = record {
    times = ground (arith, e, i.at);
    signals = ground (arith, e, i.at, i.signals);
    at = ground (arith, e, i.at);
    earned = ground (arith, e, i.at, i.earned);
  }

  going_watching : (c : HarnessCycle) → s.place ≡ watching c → IsHonest (from_watching w c s)
  unfolding from_watching
  going_watching c e = record {
    times = ground (arith, e, i.at);
    signals = ground (arith, e, i.at, i.signals);
    at = ground (arith, e, i.at, i.signals);
    earned = ground (arith, e, i.at, i.earned);
  }

  going_closing : (c : HarnessCycle) → s.place ≡ closing c → IsHonest (from_closing w c s)
  unfolding from_closing
  going_closing c e = record {
    times = λ k t at h l.
        ground (arith, h, l, e, i.times k t at, lookup-erase c.subject k s.harness.last_up);
    signals = ground (arith, e, i.at, i.signals);
    at = ground (arith, e, i.at);
    earned = ground (arith, e, i.at, i.earned);
  }

  going_cooling : (c : HarnessCycle) → s.place ≡ cooling c → IsHonest (from_cooling o w c s)
  unfolding from_cooling
  going_cooling c e = record { times = i.times; signals = i.signals; at = tt; earned = i.earned }

  going_leaving : s.place ≡ leaving → IsHonest (from_leaving s)
  unfolding from_leaving
  going_leaving e = record { times = i.times; signals = tt; at = tt; earned = i.earned }
