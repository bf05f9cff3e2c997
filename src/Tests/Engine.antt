-- ===== src/Tests/Engine.antt =====
-- Concrete runs of internal/harness/harness.go.
use server_assistant.Prelude.{
  ◌+◌, All, ◌≤◌, ◌≡◌, ◌≢◌, ◌⊎◌, ◌↔◌, refl, true, false, some, none, Bool, List, [], ◌∷◌, arith,
  if◌then◌else◌, not, map, count,
}
use server_assistant.Prelude.Int.{pos}
use server_assistant.Core.Domain.{down, up, CommittedStatus}
use server_assistant.Core.Harness.{
  HarnessMode, HarnessCycle, Approval, Outcome, zero_cycle, no_usage, ReasonerReply,
}
use server_assistant.Harness.{Options, CycleState, Harness, new_harness, replied, validate_proposal}
use server_assistant.Harness.Engine.{
  reconcile, observe_commit, rejects, is_some, accepted, decide, decided_cycle,
}
use server_assistant.Prelude.Dict.{lookup, insert}
use server_assistant.Core.Domain.{status_eq}
use server_assistant.Harness.{diagnosis_sweep, sweep_from, diagnose}
use server_assistant.Harness.Run.{
  move, go, from_started, from_proposing, from_announcing, from_waiting, from_decided, from_leaving,
  idle, started, expiring, leaving, stored, Sys, World, Move, commit, operator, going, run, start,
}
use server_assistant.Harness.Proposal.{ProposesNothing, ProposesRestart, validate_proposal_lem}
use server_assistant.Harness.Safety.{IsGated}
use server_assistant.Harness.Safety.Going.{restart_needs_approval}
use server_assistant.Harness.Flight.{
  is_idle, is_restart, is_begin, is_end, single_flight, cycle_ends, starts_when_idle,
}
use server_assistant.Harness.Decisions.{
  awaits, Recorded, decide-accepts_iff, decide-Recorded, approval_lost,
}
use server_assistant.Harness.Recovery.{IsEarned}
use server_assistant.Harness.Recovery.Runs.{recovered-IsEarned}
use server_assistant.Harness.Reconcile.{IsSettled, resolved, reconcile_lem, save_all, open_cycles}

abbrev live_options : Options
live_options = record {
  mode = HarnessMode.live;
  tools = "container_logs" ∷ "container_stats" ∷ [];
  targets = ("plex", "plex-1") ∷ [];
  max_tool_calls = pos 1;
  cooldown = 600;
  quote = λ s. s;
}

abbrev pub proposal_of_restart : ReasonerReply
proposal_of_restart = record {
  action = "restart_container";
  subject = "plex";
  rationale = "it is down";
  summary = "plex is down";
  usage = no_usage;
}

abbrev pub world : World
world = record {
  now = 50;
  ok = true;
  ok_again = true;
  expired = λ i. false;
  answer = λ i. record { output = "log"; err = none; at = 50; duration = 1 };
  reasoned = replied proposal_of_restart;
  restart_error = none;
  timer = false;
}

abbrev pub late : World
late = record world { timer = true }

abbrev pub plex_down : CommittedStatus
plex_down = record { service = "plex"; status = down; changed_at = 40 }

abbrev pub plex_up : CommittedStatus
plex_up = record { service = "plex"; status = up; changed_at = 60 }

-- A commit of DOWN, the proposal, an approval, the restart, and the recovery.
abbrev pub moves : List Move
moves =
    commit 40 "c-1" plex_down
    ∷ going world
    ∷ going world
    ∷ going world
    ∷ operator 55 "c-1" "ana" true true
    ∷ going world
    ∷ going world
    ∷ going world
    ∷ going world
    ∷ commit 60 "c-2" plex_up
    ∷ going world
    ∷ going world
    ∷ []

restart_needs_approval_example : IsGated live_options (run live_options moves start).log
restart_needs_approval_example = restart_needs_approval live_options moves

single_flight_example :
    let s = run live_options moves start in
    (is_some s.harness.active ≡ not (is_idle s.place))
    × (count is_begin s.log ≡ count is_end s.log + (if is_some s.harness.active then 1 else 0))
    × (count is_restart s.log ≤ count is_begin s.log)
single_flight_example = single_flight live_options moves

recovered-IsEarned_example : IsEarned (run live_options moves start).log
recovered-IsEarned_example = recovered-IsEarned live_options moves

-- The same up to its end, and the cooldown and the end of the goroutine.
abbrev whole_cycle : List Move
whole_cycle =
    commit 40 "c-1" plex_down
    ∷ going world
    ∷ going world
    ∷ going world
    ∷ operator 55 "c-1" "ana" false true
    ∷ going world
    ∷ going world
    ∷ going world
    ∷ []

starts_again :
    (observe_commit live_options 900 "c-3" plex_down (run live_options whole_cycle start).harness).1
    ≡ true
unfolding run move observe_commit rejects decide go from_started from_proposing from_announcing
    from_waiting from_decided from_leaving diagnosis_sweep sweep_from diagnose validate_proposal
    lookup insert status_eq
starts_again = refl

starts_when_idle_example : (run live_options whole_cycle start).place ≡ idle
starts_when_idle_example =
    starts_when_idle live_options whole_cycle 900 "c-3" plex_down starts_again

abbrev begun : Sys
begun = record start { place = started "c-1" plex_down }

abbrev twelve : List World
twelve = late ∷ late ∷ late ∷ late ∷ late ∷ late ∷ late ∷ late ∷ late ∷ late ∷ late ∷ late ∷ []

cycle_ends_example : (run live_options (map going twelve) begun).place ≡ idle
cycle_ends_example =
    cycle_ends live_options twelve begun
      (
        refl,
        (refl, (refl, (refl, (refl, (refl, (refl, (refl, (refl, (refl, (refl, (refl, tt))))))))))),
      )
      (omega arith)

abbrev proposing_cycle : HarnessCycle
proposing_cycle = record zero_cycle {
  subject = "plex";
  mode = HarnessMode.live;
  diagnosis = record {
    summary = "";
    proposed = record { kind = "restart_container"; subject = "plex"; rationale = "" };
    usage = no_usage;
    fallback = false;
  };
}

validate_proposal_lem_example :
    ProposesNothing (validate_proposal live_options proposing_cycle)
    ⊎ ProposesRestart live_options (validate_proposal live_options proposing_cycle)
validate_proposal_lem_example = validate_proposal_lem live_options proposing_cycle

abbrev waiting_state : CycleState
waiting_state = record {
  id = "c-1";
  subject = "plex";
  cycle = proposing_cycle;
  decision = none;
  outcome = false;
  awaiting_approval = true;
  awaiting_outcome = false;
}

abbrev waiting_harness : Harness
waiting_harness = record new_harness { active = some waiting_state }

decide-accepts_iff_example :
    ((decide 55 "c-1" "ana" Approval.approved true waiting_harness).2 ≡ accepted)
    ↔ ((awaits "c-1" waiting_harness ≡ true) × (true ≡ true))
decide-accepts_iff_example =
    decide-accepts_iff 55 "c-1" "ana" Approval.approved true waiting_harness

decided_now : (decide 55 "c-1" "ana" Approval.approved true waiting_harness).2 ≡ accepted
unfolding decide
decided_now = refl

decide-Recorded_example :
    Recorded 55 "c-1" "ana" Approval.approved waiting_harness
      (decide 55 "c-1" "ana" Approval.approved true waiting_harness).0
      (decide 55 "c-1" "ana" Approval.approved true waiting_harness).1
decide-Recorded_example =
    decide-Recorded 55 "c-1" "ana" Approval.approved true waiting_harness decided_now

not_kept : (decide 55 "c-1" "ana" Approval.denied false waiting_harness).2 ≢ accepted
unfolding decide
not_kept = λ e. cc

abbrev expiring_sys : Sys
expiring_sys = record { harness = waiting_harness; place = expiring proposing_cycle; log = [] }

approval_lost_example :
    let s' =
      run live_options
        (operator 55 "c-1" "ana" true true ∷ going world ∷ going world ∷ [])
        expiring_sys in
    ((decide 55 "c-1" "ana" Approval.approved true waiting_harness).2 ≡ accepted)
    × (s'.place ≡ leaving)
    × (s'.log
        ≡ stored
            (record proposing_cycle {
              approval = Approval.expired;
              approved_by = "";
              outcome = Outcome.nothing;
            })
            true
          ∷ stored (decided_cycle Approval.approved "ana" 55 proposing_cycle) true
          ∷ [])
approval_lost_example =
    approval_lost live_options world 55 "ana" proposing_cycle waiting_state expiring_sys
      (record { place = refl; active = refl; awaiting = refl })

abbrev left_open : HarnessCycle
left_open = record zero_cycle { approval = Approval.approved; outcome = Outcome.pending }

abbrev keeps : HarnessCycle → Bool
keeps c = true

reconcile_lem_example :
    (reconcile keeps (left_open ∷ zero_cycle ∷ [])
      ≡ save_all keeps (map resolved (open_cycles (left_open ∷ zero_cycle ∷ []))))
    × All IsSettled (reconcile keeps (left_open ∷ zero_cycle ∷ [])).0
reconcile_lem_example = reconcile_lem keeps (left_open ∷ zero_cycle ∷ [])
