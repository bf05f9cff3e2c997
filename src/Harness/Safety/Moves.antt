-- ===== src/Harness/Safety/Moves.antt =====
-- Every move of internal/harness/harness.go keeps the invariant of the approval gate.
use server_assistant.Prelude.{
  ℕ, String, ◌≡◌, inl, inr, refl, sym, ◌∙◌, Bool, true, false, Option, none, some, List, ◌∷◌, arith,
  str_eq, eq_iff, Bool-cases, Option-cases, if◌then◌else◌,
}
use mathlib.Core.Path.{subst}
use server_assistant.Core.Domain.{CommittedStatus}
use server_assistant.Core.Harness.{HarnessCycle, Approval}
use server_assistant.Harness.{Options, ApprovalMsg, CycleState, Harness}
use server_assistant.Harness.Engine.{is_off, is_some, rejects, watch, decide, decided_cycle}
use server_assistant.Harness.Run.{
  Place, idle, started, proposing, announcing, waiting, expiring, decided, dispatched, settling,
  watching, closing, cooling, leaving, Event, observed, stored, Sys, is_approved, choice, log_saved,
  move, commit, operator,
}
use server_assistant.Harness.Safety.{
  IsGated, AtPlace, IsSafe, AtPlace-cons, AtPlace-signal, Backed-cons, Window, Window-cons, Shut,
  Fresh, Backed, authorised, is_live,
}

-- decide for an active cycle that it refuses, since it awaits no approval.
decide_shut :
    (now : ℕ) (id who : String) (d : Approval) (ok : Bool) (st : CycleState) (h : Harness)
    → h.active ≡ some st
    → st.awaiting_approval ≡ false
    → ((decide now id who d ok h).0 ≡ h) × ((decide now id who d ok h).1 ≡ none)
unfolding decide
decide_shut now id who d ok st h a shut = elim (Bool-cases (str_eq st.id id)) [
  | inl e ↦ (simp (a, e, shut), simp (a, e, shut))
  | inr e ↦ (simp (a, e), simp (a, e))
]

-- An approval that decide saves authorises its target.
authorised_by :
    (c : HarnessCycle) (t who : String) (now : ℕ) (d : Approval) (log : List Event)
    → c.resolved_target ≡ t
    → is_live c.mode ≡ true
    → is_approved d ≡ true
    → authorised t (stored (decided_cycle d who now c) true ∷ log) ≡ true
authorised_by c t who now d log e l ok = ground (arith, e, l, ok, eq_iff c.resolved_target t)

Backed-decide :
    (c : HarnessCycle) (t who : String) (now : ℕ) (d : Approval) (old : Option ApprovalMsg)
    (log : List Event)
    → c.resolved_target ≡ t
    → is_live c.mode ≡ true
    → Backed t old log
    → Backed t
        (if is_some old then old else some (record { decision = d; who = who; at = some now }))
        (stored (decided_cycle d who now c) true ∷ log)
Backed-decide c t who now d none log e l b = authorised_by c t who now d log e l
Backed-decide c t who now d (some msg) log e l b =
    Backed-cons t (some msg) (stored (decided_cycle d who now c) true) log b

decide-Window :
    (now : ℕ) (id who : String) (approve ok : Bool) (c : HarnessCycle) (st : CycleState)
    (h : Harness) (log : List Event)
    → h.active ≡ some st
    → Window c (some st) log
    → Window c
        (decide now id who (choice approve) ok h).0.active
        (log_saved (decide now id who (choice approve) ok h).1 ok log)
unfolding decide
decide-Window now id who approve ok c st h log a w =
    let same : Window c h.active log = subst (λ x. Window c x log) (sym a) w in
    elim (Bool-cases (str_eq st.id id)) [
      | inr e ↦ simp (a, e) w
      | inl e ↦ elim (Bool-cases st.awaiting_approval) [
        | inr shut ↦ simp (a, e, shut) (w.0, w.1, w.2, λ x. refl)
        | inl open_yet ↦ elim (Bool-cases ok) [
          | inr lost ↦
              let w' =
                Window-cons c (some st)
                  (stored (decided_cycle (choice approve) who now st.cycle) false) log w in
              simp (a, e, open_yet, lost) (w'.0, w'.1, w'.2, λ x. sym open_yet ∙ w'.3 x)
          | inl kept ↦
              simp (a, e, open_yet, kept)
                (
                  w.0,
                  w.1,
                  Backed-decide st.cycle c.resolved_target who now (choice approve) st.decision log
                      w.0 w.1 w.2,
                  λ x. refl,
                )
        ]
      ]
    ]

decide_refused :
    (now : ℕ) (id who : String) (d : Approval) (ok : Bool) (h : Harness)
    → Shut h.active
    → ((decide now id who d ok h).0 ≡ h) × ((decide now id who d ok h).1 ≡ none)
decide_refused now id who d ok h shut = elim (Option-cases h.active) [
  | inl e ↦ absurd (subst Shut e shut)
  | inr (st, e) ↦ decide_shut now id who d ok st h e (subst Shut e shut)
]

decide_idle :
    (now : ℕ) (id who : String) (d : Approval) (ok : Bool) (h : Harness)
    → h.active ≡ none
    → ((decide now id who d ok h).0 ≡ h) × ((decide now id who d ok h).1 ≡ none)
unfolding decide
decide_idle now id who d ok h e = (simp e, simp e)

pub Shut-of_Fresh : (a : Option CycleState) → Fresh a → Shut a
Shut-of_Fresh none f = f
Shut-of_Fresh (some st) f = f.0

module _ (o : Options) (now : ℕ) (id who : String) (approve ok : Bool) (h : Harness)
    (log : List Event) where
  abbrev next_active : Option CycleState
  next_active = (decide now id who (choice approve) ok h).0.active

  abbrev next_log : List Event
  next_log = log_saved (decide now id who (choice approve) ok h).1 ok log

  refused_AtPlace :
      (p : Place)
      → ((decide now id who (choice approve) ok h).0 ≡ h)
        × ((decide now id who (choice approve) ok h).1 ≡ none)
      → AtPlace o p h.active log
      → AtPlace o p next_active next_log
  refused_AtPlace p e at =
      subst (λ (x : Harness). AtPlace o p x.active next_log) (sym e.0)
        (subst (λ y. AtPlace o p h.active (log_saved y ok log)) (sym e.1) at)

  Window-AtPlace : (c : HarnessCycle) → Window c h.active log → Window c next_active next_log
  Window-AtPlace c w = elim (Option-cases h.active) [
    | inl e ↦ absurd (subst (λ a. Window c a log) e w)
    | inr (st, e) ↦
        decide-Window now id who approve ok c st h log e (subst (λ a. Window c a log) e w)
  ]

  -- An operator's decision, accepted or refused, keeps what holds at the goroutine's place.
  decide_AtPlace : (p : Place) → AtPlace o p h.active log → AtPlace o p next_active next_log
  decide_AtPlace idle at = refused_AtPlace idle (decide_idle now id who (choice approve) ok h at) at
  decide_AtPlace (started i cs) at =
      refused_AtPlace (started i cs)
        (decide_refused now id who (choice approve) ok h (Shut-of_Fresh h.active at.0)) at
  decide_AtPlace (proposing c) at =
      refused_AtPlace (proposing c)
        (decide_refused now id who (choice approve) ok h (Shut-of_Fresh h.active at.0)) at
  decide_AtPlace (announcing c) at = (Window-AtPlace c at.0, at.1, at.2)
  decide_AtPlace (waiting c) at = (Window-AtPlace c at.0, at.1, at.2)
  decide_AtPlace (expiring c) at = (Window-AtPlace c at.0, at.1, at.2)
  decide_AtPlace (decided c msg) at =
      refused_AtPlace (decided c msg) (decide_refused now id who (choice approve) ok h at.0) at
  decide_AtPlace (dispatched c) at =
      refused_AtPlace (dispatched c) (decide_refused now id who (choice approve) ok h at) at
  decide_AtPlace (settling c b) at =
      refused_AtPlace (settling c b) (decide_refused now id who (choice approve) ok h at) at
  decide_AtPlace (watching c) at =
      refused_AtPlace (watching c) (decide_refused now id who (choice approve) ok h at) at
  decide_AtPlace (closing c) at =
      refused_AtPlace (closing c) (decide_refused now id who (choice approve) ok h at) at
  decide_AtPlace (cooling c) at =
      refused_AtPlace (cooling c) (decide_refused now id who (choice approve) ok h at) at
  decide_AtPlace leaving at =
      refused_AtPlace leaving (decide_refused now id who (choice approve) ok h at) at

IsGated-log_saved :
    (o : Options) (saved : Option HarnessCycle) (ok : Bool) (log : List Event)
    → IsGated o log
    → IsGated o (log_saved saved ok log)
IsGated-log_saved o none ok log g = g
IsGated-log_saved o (some c) ok log g = g

pub operator-IsSafe :
    (o : Options) (now : ℕ) (id who : String) (approve ok : Bool) (s : Sys)
    → IsSafe o s
    → IsSafe o (move o (operator now id who approve ok) s)
unfolding move
operator-IsSafe o now id who approve ok s safe = record {
  at = decide_AtPlace o now id who approve ok s.harness s.log s.place safe.at;
  gated =
      IsGated-log_saved o (decide now id who (choice approve) ok s.harness).1 ok s.log safe.gated;
}

-- A commit that starts a cycle finds none in flight, and the mode is not off.
starts_idle :
    (o : Options) (now : ℕ) (cs : CommittedStatus) (h : Harness)
    → rejects o now cs h ≡ false
    → (is_off o.mode ≡ false) × (is_some h.active ≡ false)
unfolding rejects
starts_idle o now cs h e = ground (arith, e)

pub commit-IsSafe :
    (o : Options) (now : ℕ) (id : String) (cs : CommittedStatus) (s : Sys)
    → IsSafe o s
    → IsSafe o (move o (commit now id cs) s)
unfolding move
commit-IsSafe o now id cs s safe = elim (Bool-cases (rejects o now cs (watch cs s.harness))) [
  | inl e ↦ simp e (record {
    at =
        AtPlace-cons o s.place _ (observed cs) s.log
          (AtPlace-signal o s.place cs s.harness.active s.log safe.at);
    gated = safe.gated;
  })
  | inr e ↦
      simp e (record { at = ((refl, refl), (starts_idle o now cs _ e).0); gated = safe.gated })
]
