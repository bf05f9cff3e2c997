-- ===== src/Core/Debouncer/Spec.antt =====
-- What the debouncer of internal/core/debounce.go promises, stated on the history of
-- observations alone (newest first), and that the state machine implements it.
use server_assistant.Prelude.{
  ℕ, suc, ◌≤◌, ◌≡◌, ◌≢◌, ◌↔◌, refl, true, false, List, [], ◌∷◌, arith, not, ◌&&◌, leb,
  if◌then◌else◌,
}
use server_assistant.Prelude.Int.{ℤ}
use server_assistant.Core.Domain.{Status, status_eq, status_eq_iff}
use server_assistant.Core.Debouncer.{Debouncer, at_least_one, new_debouncer_with_status, observe}

-- The debouncer after a history of observations.
unfoldable pub observe_all : Debouncer → List Status → Debouncer
observe_all d [] = d
observe_all d (s ∷ h) = (observe (observe_all d h) s).0

-- How many of the latest observations are `s`, without a break.
abbrev pub run_length : Status → List Status → ℕ
run_length s [] = 0
run_length s (t ∷ h) = if status_eq s t then suc (run_length s h) else 0

-- The committed status, read off the history: the start until a run of `n` others.
abbrev pub committed_by : ℕ → Status → List Status → Status
committed_by n start [] = start
committed_by n start (s ∷ h) =
    let before = committed_by n start h in
    if not (status_eq s before) && leb n (suc (run_length s h)) then s else before

-- The state of the debouncer that the history determines.
record Agrees (n : ℕ) (start : Status) (h : List Status) (d : Debouncer) : Type 0 where
  bound : d.n ≡ n
  committed : d.committed ≡ committed_by n start h
  streak : d.streak ≡ run_length d.candidate h
  others : (s : Status) → status_eq s d.candidate ≡ false → run_length s h ≡ 0

Agrees-observe :
    (n : ℕ) (start : Status) (h : List Status) (d : Debouncer) (s : Status)
    → Agrees n start h d
    → Agrees n start (s ∷ h) (observe d s).0
unfolding observe
Agrees-observe n start h d s a = record {
  bound = ground (arith, a.bound);
  committed =
      ground (arith, a.bound, a.committed, a.streak, a.others s, status_eq_iff s d.candidate);
  streak = ground (arith, a.streak, a.others s, status_eq_iff s d.candidate, status_eq_iff s s);
  others = λ t ne. ground (arith, a.others t, status_eq_iff s d.candidate, status_eq_iff t s);
}

Agrees-new :
    (k : ℤ) (start : Status) → Agrees (at_least_one k) start [] (new_debouncer_with_status k start)
unfolding new_debouncer_with_status
Agrees-new k start = record { bound = refl; committed = refl; streak = refl; others = λ s ne. refl }

Agrees-observe_all :
    (k : ℤ) (start : Status) (h : List Status)
    → Agrees (at_least_one k) start h (observe_all (new_debouncer_with_status k start) h)
unfolding observe_all
Agrees-observe_all k start [] = Agrees-new k start
Agrees-observe_all k start (s ∷ h) = Agrees-observe _ _ _ _ s (Agrees-observe_all k start h)

-- Whatever is observed after the start, the committed status of the machine is the one that the
-- history determines: the start, until a status other than the committed one has been observed
-- the required number of times (one, if the configured number is below one) without a break.
pub committed-observe_all :
    (k : ℤ) (start : Status) (h : List Status)
    → (observe_all (new_debouncer_with_status k start) h).committed
      ≡ committed_by (at_least_one k) start h
committed-observe_all k start h = (Agrees-observe_all k start h).committed

changed_iff :
    (n : ℕ) (start : Status) (h : List Status) (d : Debouncer) (s : Status)
    → Agrees n start h d
    → ((observe d s).1 ≡ true) ↔ ((s ≢ d.committed) × (n ≤ run_length s (s ∷ h)))
unfolding observe
changed_iff n start h d s a = (
  λ e. (
    λ q. ground (
      arith,
      e,
      q,
      status_eq_iff s d.candidate,
      status_eq_iff d.candidate d.committed,
      status_eq_iff s d.committed,
    ),
    ground
        (arith, e, a.bound, a.streak, a.others s, status_eq_iff s d.candidate, status_eq_iff s s),
  ),
  λ p. ground (
    arith,
    p.1,
    a.bound,
    a.streak,
    a.others s,
    status_eq_iff s d.candidate,
    status_eq_iff s s,
    status_eq_iff s d.committed,
    λ (q : s ≡ d.committed). p.0 q,
  ),
)

-- After any history, one more observation reports a committed change exactly when it differs
-- from the committed status and it closes a run of at least the required number of equal
-- observations, itself counted.
pub observe-changed_iff :
    (k : ℤ) (start : Status) (h : List Status) (s : Status)
    → let d = observe_all (new_debouncer_with_status k start) h in
      ((observe d s).1 ≡ true) ↔ ((s ≢ d.committed) × (at_least_one k ≤ run_length s (s ∷ h)))
observe-changed_iff k start h s = changed_iff _ start h _ s (Agrees-observe_all k start h)

-- An observation without a change leaves the committed status, and one with a change commits
-- what was observed.
pub observe-committed :
    (d : Debouncer) (s : Status)
    → (observe d s).0.committed ≡ (if (observe d s).1 then s else d.committed)
unfolding observe
observe-committed d s = ground (arith, status_eq_iff s d.candidate)
