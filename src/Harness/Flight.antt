-- ===== src/Harness/Flight.antt =====
-- One cycle at a time in internal/harness/harness.go, and at most one restart for each; the
-- goroutine of a cycle ends.
use server_assistant.Prelude.{
  ℕ, ◌+◌, ◌-◌, ◌≤◌, String, ◌≡◌, refl, Bool, true, false, Option, none, some, List, [], ◌∷◌, arith,
  not, count, length, map, All, if◌then◌else◌, ◌∙◌,
}
use server_assistant.Core.Domain.{CommittedStatus}
use server_assistant.Harness.{Options, CycleState, Harness}
use server_assistant.Harness.Engine.{is_some, rejects, signal_active, observe_commit}
use server_assistant.Harness.Run.{
  Place, idle, started, proposing, announcing, waiting, expiring, decided, dispatched, settling,
  watching, closing, cooling, leaving, Event, began, restarted, ended, Sys, World, go, move, commit,
  operator, halting, rearming, going, run, start, Move, from_started, from_proposing,
  from_announcing, from_waiting, from_expiring, from_decided, from_dispatched, from_settling,
  from_watching, from_closing, from_cooling, from_leaving, update_active,
}

abbrev pub is_idle : Place → Bool
is_idle idle = true
is_idle _ = false

abbrev pub is_restart : Event → Bool
is_restart (restarted t) = true
is_restart _ = false

abbrev pub is_begin : Event → Bool
is_begin (began id) = true
is_begin _ = false

abbrev pub is_end : Event → Bool
is_end ended = true
is_end _ = false

-- The goroutines that run at this place.
abbrev pub in_flight : Place → ℕ
in_flight idle = 0
in_flight _ = 1

-- The restarts that a cycle at this place may still make.
abbrev pub allowance : Place → ℕ
allowance (started id cs) = 1
allowance (proposing c) = 1
allowance (announcing c) = 1
allowance (waiting c) = 1
allowance (expiring c) = 1
allowance (decided c msg) = 1
allowance _ = 0

record IsSingle (s : Sys) : Type 0 where
  flight : is_some s.harness.active ≡ not (is_idle s.place)
  balance : count is_begin s.log ≡ count is_end s.log + in_flight s.place
  budget : count is_restart s.log + allowance s.place ≤ count is_begin s.log

is_some-update :
    (f : CycleState → CycleState) (h : Harness) (a : Option CycleState)
    → h.active ≡ a
    → is_some (update_active f h a).active ≡ is_some h.active
is_some-update f h none e = refl
is_some-update f h (some st) e = rw e

is_some-signal :
    (cs : CommittedStatus) (a : Option CycleState) → is_some (signal_active cs a) ≡ is_some a
is_some-signal cs none = refl
is_some-signal cs (some st) = refl

go-IsSingle :
    (o : Options) (w : World) (p : Place) (s : Sys)
    → s.place ≡ p
    → IsSingle s
    → IsSingle (go o w p s)
unfolding go from_started from_proposing from_announcing from_waiting from_expiring from_decided
    from_dispatched from_settling from_watching from_closing from_cooling from_leaving
go-IsSingle o w idle s e i = i
go-IsSingle o w (started id cs) s e i = ground (arith, e, i.flight, i.balance, i.budget)
go-IsSingle o w _ s e i = ground (arith, e, i.flight, i.balance, i.budget)

commit-IsSingle :
    (o : Options) (now : ℕ) (id : String) (cs : CommittedStatus) (s : Sys)
    → IsSingle s
    → IsSingle (move o (commit now id cs) s)
unfolding move rejects
commit-IsSingle o now id cs s i = ground (arith, i.flight, i.balance, i.budget)

operator-IsSingle :
    (o : Options) (now : ℕ) (id who : String) (approve ok : Bool) (s : Sys)
    → IsSingle s
    → IsSingle (move o (operator now id who approve ok) s)
unfolding move
operator-IsSingle o now id who approve ok s i = ground (arith, i.flight, i.balance, i.budget)

move-IsSingle : (o : Options) (v : Move) (s : Sys) → IsSingle s → IsSingle (move o v s)
unfolding move
move-IsSingle o (commit now id cs) s i = commit-IsSingle o now id cs s i
move-IsSingle o (operator now id who approve ok) s i = operator-IsSingle o now id who approve ok s i
move-IsSingle o (halting reason) s i = record {
  flight = i.flight;
  balance = i.balance;
  budget = i.budget;
}
move-IsSingle o rearming s i = record { flight = i.flight; balance = i.balance; budget = i.budget }
move-IsSingle o (going w) s i = go-IsSingle o w s.place s refl i

run-IsSingle : (o : Options) (vs : List Move) (s : Sys) → IsSingle s → IsSingle (run o vs s)
unfolding run
run-IsSingle o [] s i = i
run-IsSingle o (v ∷ vs) s i = run-IsSingle o vs (move o v s) (move-IsSingle o v s i)

in_flight_lem :
    (n : ℕ) (p : Place) (active : Bool)
    → active ≡ not (is_idle p)
    → n + in_flight p ≡ n + (if active then 1 else 0)
in_flight_lem n idle active e = rw e refl
in_flight_lem n _ active e = rw e refl

-- In every run of the engine from its start, whatever the interleaving: a cycle is active exactly
-- while a goroutine runs; of the goroutines that were started, all have ended but that one, so there
-- are never two; and the actuator has been called at most once for each.
pub single_flight :
    (o : Options) (vs : List Move)
    → let s = run o vs start in
      (is_some s.harness.active ≡ not (is_idle s.place))
      × (count is_begin s.log ≡ count is_end s.log + (if is_some s.harness.active then 1 else 0))
      × (count is_restart s.log ≤ count is_begin s.log)
single_flight o vs =
    let i =
      run-IsSingle o vs start (record { flight = refl; balance = refl; budget = omega arith }) in
    (
      i.flight,
      i.balance ∙ in_flight_lem _ (run o vs start).place _ i.flight,
      omega (arith, i.budget),
    )

idle_of : (p : Place) → is_idle p ≡ true → p ≡ idle
idle_of idle e = refl
idle_of (started id cs) e = cc
idle_of (proposing c) e = cc
idle_of (announcing c) e = cc
idle_of (waiting c) e = cc
idle_of (expiring c) e = cc
idle_of (decided c msg) e = cc
idle_of (dispatched c) e = cc
idle_of (settling c already) e = cc
idle_of (watching c) e = cc
idle_of (closing c) e = cc
idle_of (cooling c) e = cc
idle_of leaving e = cc

-- In every run of the engine from its start, whatever the interleaving: a commit starts a cycle only
-- when the goroutine of the cycle before is gone, so there is one goroutine at a time.
pub starts_when_idle :
    (o : Options) (vs : List Move) (now : ℕ) (id : String) (cs : CommittedStatus)
    → (observe_commit o now id cs (run o vs start).harness).1 ≡ true
    → (run o vs start).place ≡ idle
unfolding observe_commit rejects
starts_when_idle o vs now id cs starts =
    let s = run o vs start in
    let i =
      run-IsSingle o vs start (record { flight = refl; balance = refl; budget = omega arith }) in
    let quiet = is_some-signal cs s.harness.active in
    idle_of s.place (ground (arith, starts, quiet, i.flight))

-- How many steps the goroutine has left when its timers fire.
abbrev pub steps_left : Place → ℕ
steps_left idle = 0
steps_left (started id cs) = 12
steps_left (proposing c) = 11
steps_left (announcing c) = 10
steps_left (waiting c) = 9
steps_left (expiring c) = 8
steps_left (decided c msg) = 7
steps_left (dispatched c) = 6
steps_left (settling c already) = 5
steps_left (watching c) = 4
steps_left (closing c) = 3
steps_left (cooling c) = 2
steps_left leaving = 1

steps_left-go :
    (o : Options) (w : World) (p : Place) (s : Sys)
    → s.place ≡ p
    → w.timer ≡ true
    → steps_left (go o w p s).place ≤ steps_left p - 1
unfolding go from_started from_proposing from_announcing from_waiting from_expiring from_decided
    from_dispatched from_settling from_watching from_closing from_cooling from_leaving
steps_left-go o w idle s e t = ground (arith, e, t)
steps_left-go o w _ s e t = ground (arith, e, t)

idle_of_steps : (p : Place) → steps_left p ≤ 0 → p ≡ idle
idle_of_steps idle h = refl
idle_of_steps (started id cs) h = absurd (omega arith)
idle_of_steps (proposing c) h = absurd (omega arith)
idle_of_steps (announcing c) h = absurd (omega arith)
idle_of_steps (waiting c) h = absurd (omega arith)
idle_of_steps (expiring c) h = absurd (omega arith)
idle_of_steps (decided c msg) h = absurd (omega arith)
idle_of_steps (dispatched c) h = absurd (omega arith)
idle_of_steps (settling c already) h = absurd (omega arith)
idle_of_steps (watching c) h = absurd (omega arith)
idle_of_steps (closing c) h = absurd (omega arith)
idle_of_steps (cooling c) h = absurd (omega arith)
idle_of_steps leaving h = absurd (omega arith)

-- From any state of the engine, twelve steps of the goroutine in which its timers fire, whatever
-- else they meet, end the cycle: the goroutine is gone.
pub cycle_ends :
    (o : Options) (ws : List World) (s : Sys)
    → All (λ w. w.timer ≡ true) ws
    → steps_left s.place ≤ length ws
    → (run o (map going ws) s).place ≡ idle
unfolding run
cycle_ends o [] s t h = idle_of_steps s.place h
cycle_ends o (w ∷ ws) s (t, ts) h =
    cycle_ends o ws (move o (going w) s) ts
      (unfold move in omega (arith, steps_left-go o w s.place s refl t))
