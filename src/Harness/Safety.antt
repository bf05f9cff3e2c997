-- ===== src/Harness/Safety.antt =====
-- The approval gate of internal/harness/harness.go over every interleaving: the invariant that
-- each place of the goroutine keeps, and that every move keeps it.
pub mod Moves
pub mod Going
use mathlib.Core.Path.{subst}
use server_assistant.Prelude.{
  ℕ, String, ◌≡◌, ◌⊎◌, inl, inr, refl, sym, ap, ◌∙◌, Bool, true, false, Option, none, some, List,
  [], ◌∷◌, arith, str_eq, eq_iff, Bool-cases, Option-cases, not, ◌&&◌, ◌||◌, if◌then◌else◌, any,
  if_true, if_false,
}
use server_assistant.Prelude.Dict.{lookup}
use server_assistant.Core.Domain.{CommittedStatus, status_eq, up}
use server_assistant.Core.Harness.{
  HarnessMode, HarnessCycle, Approval, action_none, action_restart_container,
}
use server_assistant.Harness.{
  Options, ApprovalMsg, CycleState, Harness, diagnose, validate_proposal, diagnosis_sweep, failed,
  replied,
}
use server_assistant.Harness.Engine.{
  is_off, is_some, rejects, watch, signal_active, signal_state, observe_commit, decide,
  decided_cycle, new_state,
}
use server_assistant.Harness.Run.{
  Place, idle, started, proposing, announcing, waiting, expiring, decided, dispatched, settling,
  watching, closing, cooling, leaving, Event, observed, began, stored, restarted, Sys, World,
  is_shadow, is_approved, investigate, choice,
}

abbrev pub is_live : HarnessMode → Bool
is_live HarnessMode.live = true
is_live _ = false

-- A saved record of a live cycle that an operator approved, with this target.
abbrev pub authorises : String → Event → Bool
authorises t (stored c ok) =
    ok && (is_approved c.approval && (is_live c.mode && str_eq c.resolved_target t))
authorises t _ = false

abbrev pub authorised : String → List Event → Bool
authorised t log = any (authorises t) log

-- The target is the configured container of some service.
pub record IsTarget (o : Options) (t : String) : Type 0 where
  pub service : String
  pub configured : lookup service o.targets ≡ some t

-- Every restart of the log (the latest event first) has a configured target, in live mode, after
-- the approval of a cycle with this target had been saved.
abbrev pub IsGated : Options → List Event → Type 0
IsGated o [] = Unit
IsGated o (restarted t ∷ log) =
    (is_live o.mode ≡ true) × (authorised t log ≡ true) × IsTarget o t × IsGated o log
IsGated o (e ∷ log) = IsGated o log

abbrev Backed : String → Option ApprovalMsg → List Event → Type 0
Backed t none log = Unit
Backed t (some msg) log = is_approved msg.decision ≡ true → authorised t log ≡ true

-- Nothing is decided yet, and decide refuses.
abbrev Fresh : Option CycleState → Type 0
Fresh none = ⊥
Fresh (some st) = (st.awaiting_approval ≡ false) × (st.decision ≡ none)

-- What decide saves is the waiting cycle, and an approval in the channel has been saved.
abbrev Window : HarnessCycle → Option CycleState → List Event → Type 0
Window c none log = ⊥
Window c (some st) log =
    (st.cycle.resolved_target ≡ c.resolved_target)
    × (is_live st.cycle.mode ≡ true)
    × Backed c.resolved_target st.decision log
    × (is_some st.decision ≡ true → st.awaiting_approval ≡ false)

-- decide refuses.
abbrev Shut : Option CycleState → Type 0
Shut none = ⊥
Shut (some st) = st.awaiting_approval ≡ false

abbrev AtPlace : Options → Place → Option CycleState → List Event → Type 0
AtPlace o idle a log = a ≡ none
AtPlace o (started id cs) a log = Fresh a × (is_off o.mode ≡ false)
AtPlace o (proposing c) a log =
    Fresh a × (is_live o.mode ≡ true) × (c.mode ≡ o.mode) × IsTarget o c.resolved_target
AtPlace o (announcing c) a log =
    Window c a log × (is_live o.mode ≡ true) × IsTarget o c.resolved_target
AtPlace o (waiting c) a log =
    Window c a log × (is_live o.mode ≡ true) × IsTarget o c.resolved_target
AtPlace o (expiring c) a log =
    Window c a log × (is_live o.mode ≡ true) × IsTarget o c.resolved_target
AtPlace o (decided c msg) a log =
    Shut a
    × (is_live o.mode ≡ true)
    × IsTarget o c.resolved_target
    × Backed c.resolved_target (some msg) log
AtPlace o _ a log = Shut a

pub record IsSafe (o : Options) (s : Sys) : Type 0 where
  at : AtPlace o s.place s.harness.active s.log
  pub gated : IsGated o s.log

-- One more event keeps an authorisation.
Backed-cons :
    (t : String) (d : Option ApprovalMsg) (e : Event) (log : List Event)
    → Backed t d log
    → Backed t d (e ∷ log)
Backed-cons t none e log b = tt
Backed-cons t (some msg) e log b = λ ok. ground (arith, b ok)

Window-cons :
    (c : HarnessCycle) (a : Option CycleState) (e : Event) (log : List Event)
    → Window c a log
    → Window c a (e ∷ log)
Window-cons c none e log w = w
Window-cons c (some st) e log w = (w.0, w.1, Backed-cons _ st.decision e log w.2, w.3)

AtPlace-cons :
    (o : Options) (p : Place) (a : Option CycleState) (e : Event) (log : List Event)
    → AtPlace o p a log
    → AtPlace o p a (e ∷ log)
AtPlace-cons o (announcing c) a e log h = (Window-cons c a e log h.0, h.1, h.2)
AtPlace-cons o (waiting c) a e log h = (Window-cons c a e log h.0, h.1, h.2)
AtPlace-cons o (expiring c) a e log h = (Window-cons c a e log h.0, h.1, h.2)
AtPlace-cons o (decided c msg) a e log h = (h.0, h.1, h.2, Backed-cons _ (some msg) e log h.3)
AtPlace-cons o idle a e log h = h
AtPlace-cons o (started id cs) a e log h = h
AtPlace-cons o (proposing c) a e log h = h
AtPlace-cons o _ a e log h = h

-- A signal of an outcome touches nothing that the gate reads.
signal_keeps :
    (P : CycleState → Type 0) (cs : CommittedStatus) (st : CycleState)
    → P st
    → P (record st { outcome = true })
    → P (signal_state cs st)
signal_keeps P cs st h h' =
    elim (Bool-cases
      (str_eq st.subject cs.service && st.awaiting_outcome && status_eq cs.status up)) [
        | inl e ↦ subst P (sym (if_true _ _ e)) h'
        | inr e ↦ subst P (sym (if_false _ _ e)) h
      ]

Fresh-signal : (cs : CommittedStatus) (a : Option CycleState) → Fresh a → Fresh (signal_active cs a)
Fresh-signal cs none f = f
Fresh-signal cs (some st) f = signal_keeps (λ x. Fresh (some x)) cs st f f

Shut-signal : (cs : CommittedStatus) (a : Option CycleState) → Shut a → Shut (signal_active cs a)
Shut-signal cs none f = f
Shut-signal cs (some st) f = signal_keeps (λ x. Shut (some x)) cs st f f

Window-signal :
    (c : HarnessCycle) (cs : CommittedStatus) (a : Option CycleState) (log : List Event)
    → Window c a log
    → Window c (signal_active cs a) log
Window-signal c cs none log w = w
Window-signal c cs (some st) log w = signal_keeps (λ x. Window c (some x) log) cs st w w

AtPlace-signal :
    (o : Options) (p : Place) (cs : CommittedStatus) (a : Option CycleState) (log : List Event)
    → AtPlace o p a log
    → AtPlace o p (signal_active cs a) log
AtPlace-signal o idle cs a log h = rw h
AtPlace-signal o (started id cs') cs a log h = (Fresh-signal cs a h.0, h.1)
AtPlace-signal o (proposing c) cs a log h = (Fresh-signal cs a h.0, h.1, h.2, h.3)
AtPlace-signal o (announcing c) cs a log h = (Window-signal c cs a log h.0, h.1, h.2)
AtPlace-signal o (waiting c) cs a log h = (Window-signal c cs a log h.0, h.1, h.2)
AtPlace-signal o (expiring c) cs a log h = (Window-signal c cs a log h.0, h.1, h.2)
AtPlace-signal o (decided c msg) cs a log h = (Shut-signal cs a h.0, h.1, h.2, h.3)
AtPlace-signal o _ cs a log h = Shut-signal cs a h
