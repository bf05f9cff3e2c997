-- ===== src/Harness/Decisions.antt =====
-- What Approve and Deny of internal/harness/harness.go promise to the operator, and where the
-- promise ends.
use text.Mathlib.TextPositions.{eq_refl}
use server_assistant.Prelude.{
  ℕ, String, ◌≡◌, ◌≢◌, ◌↔◌, refl, inl, inr, Bool, true, false, Option, none, some, [], ◌∷◌, str_eq,
  Bool-cases, Option-cases, if◌then◌else◌,
}
use server_assistant.Core.Harness.{HarnessCycle, Approval, Outcome}
use server_assistant.Harness.{Options, CycleState, Harness}
use server_assistant.Harness.Engine.{decide, accepted, decided_cycle}
use server_assistant.Harness.Run.{
  expiring, leaving, stored, Sys, World, going, operator, move, run, go, from_expiring,
  from_decided,
}

abbrev pub awaits_in : String → Option CycleState → Bool
awaits_in id none = false
awaits_in id (some st) = if str_eq st.id id then st.awaiting_approval else false

-- The cycle that the operator names is the active one, and it awaits a decision.
abbrev pub awaits : String → Harness → Bool
awaits id h = awaits_in id h.active

-- What an accepted decision has done: the store has kept the decision, and the cycle no longer
-- awaits one.
pub record Recorded (now : ℕ) (id who : String) (d : Approval) (h h' : Harness)
    (saved : Option HarnessCycle) : Type 0 where
  pub state : CycleState
  pub active : h.active ≡ some state
  pub kept :
      saved ≡ some (record state.cycle { approval = d; approved_by = who; approved_at = some now })
  pub done : awaits id h' ≡ false

-- Every branch of decide, for the proofs below.
record Faces (now : ℕ) (id who : String) (d : Approval) (ok : Bool) (h : Harness) : Type 0 where
  accepts : ((decide now id who d ok h).2 ≡ accepted) ↔ ((awaits id h ≡ true) × (ok ≡ true))
  records :
      (decide now id who d ok h).2 ≡ accepted
      → Recorded now id who d h (decide now id who d ok h).0 (decide now id who d ok h).1
  refuses : (decide now id who d ok h).2 ≢ accepted → (decide now id who d ok h).0 ≡ h

decide-Faces :
    (now : ℕ) (id who : String) (d : Approval) (ok : Bool) (h : Harness) → Faces now id who d ok h
unfolding decide
decide-Faces now id who d ok h = elim (Option-cases h.active) [
  | inl e ↦ record {
    accepts = simp e (λ x. cc, λ x. cc);
    records = simp e (λ x. cc);
    refuses = simp e (λ x. refl);
  }
  | inr (st, e) ↦ elim (Bool-cases (str_eq st.id id)) [
    | inr i ↦ record {
      accepts = simp (e, i) (λ x. cc, λ x. cc);
      records = simp (e, i) (λ x. cc);
      refuses = simp (e, i) (λ x. refl);
    }
    | inl i ↦ elim (Bool-cases st.awaiting_approval) [
      | inr a ↦ record {
        accepts = simp (e, i, a) (λ x. cc, λ x. cc);
        records = simp (e, i, a) (λ x. cc);
        refuses = simp (e, i, a) (λ x. refl);
      }
      | inl a ↦ elim (Bool-cases ok) [
        | inr k ↦ record {
          accepts = simp (e, i, a, k) (λ x. cc, λ x. cc);
          records = simp (e, i, a, k) (λ x. cc);
          refuses = simp (e, i, a, k) (λ x. refl);
        }
        | inl k ↦ record {
          accepts = simp (e, i, a, k) (λ x. (refl, refl), λ x. refl);
          records =
              simp (e, i, a, k) (λ x. record { state = st; active = e; kept = refl; done = rw i });
          refuses = simp (e, i, a, k) (λ x. absurd (x refl));
        }
      ]
    ]
  ]
]

-- decide accepts exactly if the named cycle is active and awaits a decision and the store keeps the
-- record.
pub decide-accepts_iff :
    (now : ℕ) (id who : String) (d : Approval) (ok : Bool) (h : Harness)
    → ((decide now id who d ok h).2 ≡ accepted) ↔ ((awaits id h ≡ true) × (ok ≡ true))
decide-accepts_iff now id who d ok h = (decide-Faces now id who d ok h).accepts

-- If decide accepts, then what it has saved is the record of the active cycle with this decision, this
-- operator and this time and all else kept, and the cycle awaits no other decision.
pub decide-Recorded :
    (now : ℕ) (id who : String) (d : Approval) (ok : Bool) (h : Harness)
    → (decide now id who d ok h).2 ≡ accepted
    → Recorded now id who d h (decide now id who d ok h).0 (decide now id who d ok h).1
decide-Recorded now id who d ok h = (decide-Faces now id who d ok h).records

-- If decide returns an error, also one of the store, the state of the engine is unchanged.
pub decide_refused :
    (now : ℕ) (id who : String) (d : Approval) (ok : Bool) (h : Harness)
    → (decide now id who d ok h).2 ≢ accepted
    → (decide now id who d ok h).0 ≡ h
decide_refused now id who d ok h = (decide-Faces now id who d ok h).refuses

-- The state of an expired wait: the timer has fired, and the lock is not yet taken.
pub record Expires (c : HarnessCycle) (st : CycleState) (s : Sys) : Type 0 where
  pub place : s.place ≡ expiring c
  pub active : s.harness.active ≡ some st
  pub awaiting : st.awaiting_approval ≡ true

-- If the timer of the approval has fired but its lock is not yet taken, and the store keeps the
-- record, then Approve returns success and the approval is saved; yet in the next two steps the
-- goroutine ends the cycle as expired, saves that over the approval, and calls no actuator.
pub approval_lost :
    (o : Options) (w : World) (now : ℕ) (who : String) (c : HarnessCycle) (st : CycleState)
    (s : Sys)
    → Expires c st s
    → let s' = run o (operator now st.id who true true ∷ going w ∷ going w ∷ []) s in
      ((decide now st.id who Approval.approved true s.harness).2 ≡ accepted)
      × (s'.place ≡ leaving)
      × (s'.log
          ≡ stored
              (record c {
                approval = Approval.expired;
                approved_by = "";
                outcome = Outcome.nothing;
              })
              w.ok
            ∷ stored (decided_cycle Approval.approved who now st.cycle) true
            ∷ s.log)
unfolding run move decide go from_expiring from_decided
approval_lost o w now who c st s e = (
  simp (e.active, eq_refl, e.awaiting),
  simp (e.place, e.active, eq_refl, e.awaiting),
  simp (e.place, e.active, eq_refl, e.awaiting),
)
