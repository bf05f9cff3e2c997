-- ===== src/Harness/Safety/Going.antt =====
-- Every step of the goroutine of internal/harness/harness.go keeps the invariant of the approval
-- gate; with the other moves, every run does.
use mathlib.Core.Path.{subst}
use server_assistant.Prelude.{
  String, ◌≡◌, inl, inr, refl, sym, ap, ◌∙◌, Bool, true, false, none, some, List, [], ◌∷◌, arith,
  str_eq, eq_iff, Bool-cases, Option-cases,
}
use server_assistant.Prelude.Dict.{lookup, erase}
use server_assistant.Core.Domain.{CommittedStatus}
use server_assistant.Core.Harness.{HarnessCycle, action_none}
use server_assistant.Harness.{
  Options, ApprovalMsg, CycleState, Harness, Reasoned, diagnose, validate_proposal, failed, replied,
  new_cycle, dispatch,
}
use server_assistant.Harness.Engine.{is_off, is_some, outcome_pending}
use server_assistant.Harness.Proposal.{validate_proposal_lem}
use server_assistant.Harness.Run.{
  Place, idle, started, proposing, announcing, waiting, expiring, decided, dispatched, settling,
  watching, closing, cooling, leaving, Event, stored, Sys, World, is_shadow, is_approved,
  investigate, go, move, commit, operator, halting, rearming, going, run, start, Move, from_started,
  from_proposing, from_announcing, from_waiting, from_expiring, from_decided, from_dispatched,
  from_settling, from_watching, from_closing, from_cooling, from_leaving, apply_decision,
  update_active, outcome_of,
}
use server_assistant.Harness.Safety.{
  IsGated, IsTarget, AtPlace, IsSafe, Window, Window-cons, Shut, Fresh, Backed, is_live,
}
use server_assistant.Harness.Safety.Moves.{operator-IsSafe, commit-IsSafe, Shut-of_Fresh}

-- A proposal that is not "none" has a configured target.
investigated-IsTarget :
    (o : Options) (c : HarnessCycle)
    → str_eq (validate_proposal o c).diagnosis.proposed.kind action_none ≡ false
    → IsTarget o (validate_proposal o c).resolved_target
investigated-IsTarget o c e = elim (validate_proposal_lem o c) [
  | inl n ↦ absurd (
      ground (arith, e, n.kind, eq_iff (validate_proposal o c).diagnosis.proposed.kind action_none))
  | inr r ↦ record {
    service = (validate_proposal o c).diagnosis.proposed.subject;
    configured = r.target;
  }
]

mode-diagnose : (r : Reasoned) (c : HarnessCycle) → (diagnose r c).mode ≡ c.mode
unfolding diagnose
mode-diagnose (failed e) c = refl
mode-diagnose (replied r) c = refl

mode-validate_proposal : (o : Options) (c : HarnessCycle) → (validate_proposal o c).mode ≡ c.mode
unfolding validate_proposal
mode-validate_proposal o c = elim (Option-cases (lookup c.diagnosis.proposed.subject o.targets)) [
  | inl e ↦ simp e (ground arith)
  | inr (t, e) ↦ simp e (ground arith)
]

mode-investigate : (o : Options) (w : World) (c : HarnessCycle) → (investigate o w c).mode ≡ c.mode
mode-investigate o w c = simp (mode-validate_proposal, mode-diagnose)

live_of : (o : Options) → is_off o.mode ≡ false → is_shadow o.mode ≡ false → is_live o.mode ≡ true
live_of o a b = ground (arith, a, b)

from_started-IsSafe :
    (o : Options) (w : World) (id : String) (cs : CommittedStatus) (s : Sys)
    → AtPlace o (started id cs) s.harness.active s.log
    → IsGated o s.log
    → IsSafe o (from_started o w id cs s)
unfolding from_started
from_started-IsSafe o w id cs s at g =
    let c2 = investigate o w (new_cycle o id cs w.now) in
    elim (Bool-cases (is_shadow o.mode)) [
      | inl e ↦ simp e (record { at = Shut-of_Fresh s.harness.active at.0; gated = g })
      | inr e ↦ elim (Bool-cases (str_eq c2.diagnosis.proposed.kind action_none)) [
        | inl n ↦ simp (e, n) (record { at = Shut-of_Fresh s.harness.active at.0; gated = g })
        | inr n ↦
            simp (e, n)
              (record {
                at = (
                  at.0,
                  live_of o at.1 e,
                  mode-investigate o w (new_cycle o id cs w.now),
                  investigated-IsTarget o _ n,
                );
                gated = g;
              })
      ]
    ]

from_proposing-IsSafe :
    (o : Options) (c : HarnessCycle) (s : Sys)
    → AtPlace o (proposing c) s.harness.active s.log
    → IsGated o s.log
    → IsSafe o (from_proposing c s)
unfolding from_proposing
from_proposing-IsSafe o c s at g = elim (Option-cases s.harness.active) [
  | inl e ↦ absurd (subst Fresh e at.0)
  | inr (st, e) ↦
      let f : Fresh (some st) = subst Fresh e at.0 in
      simp (e) (record {
        at = (
          (
            refl,
            ap is_live at.2 ∙ at.1,
            subst (λ d. Backed c.resolved_target d s.log) (sym f.1) tt,
            λ x. absurd (ground (arith, x, f.1)),
          ),
          at.1,
          at.3,
        );
        gated = g;
      })
]

-- A change of the active cycle, and what it needs to leave decide shut.
Shut-update :
    (f : CycleState → CycleState) (h : Harness)
    → ((st : CycleState) → st.awaiting_approval ≡ false → (f st).awaiting_approval ≡ false)
    → Shut h.active
    → Shut (update_active f h h.active).active
Shut-update f h keep shut = elim (Option-cases h.active) [
  | inl e ↦ absurd (subst Shut e shut)
  | inr (st, e) ↦ simp e (keep st (subst Shut e shut))
]

from_announcing-IsSafe :
    (o : Options) (w : World) (c : HarnessCycle) (s : Sys)
    → AtPlace o (announcing c) s.harness.active s.log
    → IsGated o s.log
    → IsSafe o (from_announcing w c s)
unfolding from_announcing
from_announcing-IsSafe o w c s at g = record {
  at = (Window-cons c s.harness.active (stored c w.ok) s.log at.0, at.1, at.2);
  gated = g;
}

receive-IsSafe :
    (o : Options) (c : HarnessCycle) (st : CycleState) (msg : ApprovalMsg) (s : Sys)
    → st.decision ≡ some msg
    → AtPlace o (waiting c) (some st) s.log
    → IsGated o s.log
    → IsSafe o (record s {
      harness = record s.harness { active = some (record st { decision = none }) };
      place = decided c msg;
    })
receive-IsSafe o c st msg s d at g = record {
  at = (at.0.3 (ap is_some d), at.1, at.2, subst (λ x. Backed c.resolved_target x s.log) d at.0.2);
  gated = g;
}

from_waiting-IsSafe :
    (o : Options) (w : World) (c : HarnessCycle) (s : Sys)
    → IsSafe o s
    → AtPlace o (waiting c) s.harness.active s.log
    → IsSafe o (from_waiting w c s)
unfolding from_waiting
from_waiting-IsSafe o w c s safe at = elim (Bool-cases w.timer) [
  | inl e ↦ simp e (record { at = at; gated = safe.gated })
  | inr e ↦ elim (Option-cases s.harness.active) [
    | inl a ↦ absurd (subst (λ x. Window c x s.log) a at.0)
    | inr (st, a) ↦ elim (Option-cases st.decision) [
      | inl d ↦ simp (e, a, d) safe
      | inr (msg, d) ↦
          simp (e, a, d)
            (receive-IsSafe o c st msg s d (subst (λ x. AtPlace o (waiting c) x s.log) a at)
              safe.gated)
    ]
  ]
]

Shut-expired :
    (c : HarnessCycle) (h : Harness) (log : List Event)
    → Window c h.active log
    → Shut (update_active (λ st. record st { awaiting_approval = false }) h h.active).active
Shut-expired c h log w = elim (Option-cases h.active) [
  | inl e ↦ absurd (subst (λ x. Window c x log) e w)
  | inr (st, e) ↦ simp e refl
]

from_expiring-IsSafe :
    (o : Options) (c : HarnessCycle) (s : Sys)
    → AtPlace o (expiring c) s.harness.active s.log
    → IsGated o s.log
    → IsSafe o (from_expiring c s)
unfolding from_expiring
from_expiring-IsSafe o c s at g = record {
  at = (Shut-expired c s.harness s.log at.0, at.1, at.2, λ x. cc);
  gated = g;
}

from_decided-IsSafe :
    (o : Options) (w : World) (c : HarnessCycle) (msg : ApprovalMsg) (s : Sys)
    → AtPlace o (decided c msg) s.harness.active s.log
    → IsGated o s.log
    → IsSafe o (from_decided w c msg s)
unfolding from_decided
from_decided-IsSafe o w c msg s at g =
    let c2 = dispatch w.restart_error w.now (apply_decision msg c) in
    elim (Bool-cases (is_approved msg.decision)) [
      | inr e ↦ simp e (record { at = at.0; gated = g })
      | inl e ↦ elim (Bool-cases (outcome_pending c2.outcome)) [
        | inl p ↦ simp (e, p) (record { at = at.0; gated = (at.1, at.3 e, at.2, g) })
        | inr p ↦ simp (e, p) (record { at = at.0; gated = (at.1, at.3 e, at.2, g) })
      ]
    ]

from_dispatched-IsSafe :
    (o : Options) (c : HarnessCycle) (s : Sys)
    → Shut s.harness.active
    → IsGated o s.log
    → IsSafe o (from_dispatched c s)
unfolding from_dispatched
from_dispatched-IsSafe o c s at g = record {
  at = Shut-update (λ st. record st { awaiting_outcome = true }) s.harness (λ st e. e) at;
  gated = g;
}

from_settling-IsSafe :
    (o : Options) (w : World) (c : HarnessCycle) (already : Bool) (s : Sys)
    → Shut s.harness.active
    → IsGated o s.log
    → IsSafe o (from_settling w c already s)
unfolding from_settling
from_settling-IsSafe o w c true s at g = record { at = at; gated = g }
from_settling-IsSafe o w c false s at g = record { at = at; gated = g }

from_watching-IsSafe :
    (o : Options) (w : World) (c : HarnessCycle) (s : Sys)
    → IsSafe o s
    → Shut s.harness.active
    → IsSafe o (from_watching w c s)
unfolding from_watching
from_watching-IsSafe o w c s safe at = elim (Bool-cases w.timer) [
  | inl e ↦ simp e (record { at = at; gated = safe.gated })
  | inr e ↦ elim (Bool-cases (outcome_of s.harness.active)) [
    | inl u ↦
        simp (e, u)
          (record {
            at = Shut-update (λ st. record st { outcome = false }) s.harness (λ st x. x) at;
            gated = safe.gated;
          })
    | inr u ↦ simp (e, u) safe
  ]
]

from_closing-IsSafe :
    (o : Options) (w : World) (c : HarnessCycle) (s : Sys)
    → Shut s.harness.active
    → IsGated o s.log
    → IsSafe o (from_closing w c s)
unfolding from_closing
from_closing-IsSafe o w c s at g = record {
  at =
      Shut-update (λ st. record st { awaiting_outcome = false })
        (record s.harness { last_up = erase c.subject s.harness.last_up }) (λ st e. e) at;
  gated = g;
}

-- The goroutine's step from its place keeps the invariant.
go-IsSafe :
    (o : Options) (w : World) (p : Place) (s : Sys)
    → IsSafe o s
    → AtPlace o p s.harness.active s.log
    → IsSafe o (go o w p s)
unfolding go from_cooling from_leaving
go-IsSafe o w idle s safe at = safe
go-IsSafe o w (started id cs) s safe at = from_started-IsSafe o w id cs s at safe.gated
go-IsSafe o w (proposing c) s safe at = from_proposing-IsSafe o c s at safe.gated
go-IsSafe o w (announcing c) s safe at = from_announcing-IsSafe o w c s at safe.gated
go-IsSafe o w (waiting c) s safe at = from_waiting-IsSafe o w c s safe at
go-IsSafe o w (expiring c) s safe at = from_expiring-IsSafe o c s at safe.gated
go-IsSafe o w (decided c msg) s safe at = from_decided-IsSafe o w c msg s at safe.gated
go-IsSafe o w (dispatched c) s safe at = from_dispatched-IsSafe o c s at safe.gated
go-IsSafe o w (settling c already) s safe at = from_settling-IsSafe o w c already s at safe.gated
go-IsSafe o w (watching c) s safe at = from_watching-IsSafe o w c s safe at
go-IsSafe o w (closing c) s safe at = from_closing-IsSafe o w c s at safe.gated
go-IsSafe o w (cooling c) s safe at = record { at = at; gated = safe.gated }
go-IsSafe o w leaving s safe at = record { at = refl; gated = safe.gated }

move-IsSafe : (o : Options) (v : Move) (s : Sys) → IsSafe o s → IsSafe o (move o v s)
unfolding move
move-IsSafe o (commit now id cs) s safe = commit-IsSafe o now id cs s safe
move-IsSafe o (operator now id who approve ok) s safe =
    operator-IsSafe o now id who approve ok s safe
move-IsSafe o (halting reason) s safe = record { at = safe.at; gated = safe.gated }
move-IsSafe o rearming s safe = record { at = safe.at; gated = safe.gated }
move-IsSafe o (going w) s safe = go-IsSafe o w s.place s safe safe.at

run-IsSafe : (o : Options) (vs : List Move) (s : Sys) → IsSafe o s → IsSafe o (run o vs s)
unfolding run
run-IsSafe o [] s safe = safe
run-IsSafe o (v ∷ vs) s safe = run-IsSafe o vs (move o v s) (move-IsSafe o v s safe)

-- In every run of the engine from its start, whatever the interleaving, the stores, the tools, the
-- Reasoner and the operators do: each call of the actuator names the configured target of some
-- service, happens in live mode, and comes after the store has kept a record of a live cycle with
-- this target that an operator approved.
pub restart_needs_approval : (o : Options) (vs : List Move) → IsGated o (run o vs start).log
restart_needs_approval o vs = (run-IsSafe o vs start (record { at = refl; gated = tt })).gated
