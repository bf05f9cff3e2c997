-- ===== src/Scripts/Moves.antt =====
-- The calls of the store and `transition` of internal/scripts/registry.go keep the invariant.
use mathlib.Core.Path.{subst}
use server_assistant.Prelude.{
  suc, String, ◌≡◌, refl, sym, ap, ◌∙◌, inl, inr, true, some, ◌∷◌, str_eq, eq_iff, arith,
  Bool-cases, Option-cases,
}
use server_assistant.Prelude.Dict.{Dict, lookup, insert, lookup-insert}
use server_assistant.Scripts.Domain.{ProposalState, can_transition_to, Proposal}
use server_assistant.Scripts.Store.{Env, written, Sys, bump, is_there, get_script, get_proposal}
use server_assistant.Scripts.Registry.{transition, moved}
use server_assistant.Scripts.Gate.{IsBacked, IsBacked-cons, IsSafe, Holds, rows-cons, rows-insert}

-- A proposal at hand: its row is there, and what its state needs has happened.
pub record AtHand (env : Env) (p : Proposal) (s : Sys) : Type 0 where
  pub there : is_there (lookup p.id s.proposals) ≡ true
  pub backed : IsBacked env p.state p.script_hash s.log

pub IsSafe-bump : (env : Env) (s : Sys) → IsSafe env s → IsSafe env (bump s)
IsSafe-bump env s i = record {
  scripts = i.scripts;
  proposals = i.proposals;
  rows = i.rows;
  named = i.named;
  gated = i.gated;
}

some_inj : {A : Type 0} (a b : A) → some a ≡ some b → a ≡ b
some_inj a b e = cc

pub IsSafe-written :
    (env : Env) (p : Proposal) (s : Sys)
    → IsSafe env s
    → IsBacked env p.state p.script_hash (written p ∷ s.log)
    → IsSafe env (record s { proposals = insert p.id p s.proposals; log = written p ∷ s.log })
IsSafe-written env p s i b = record {
  scripts = i.scripts;
  proposals = λ k q e. elim (Bool-cases (str_eq p.id k)) [
    | inl same ↦
        subst (λ x. IsBacked env x.state x.script_hash (written p ∷ s.log))
          (some_inj p q (sym (lookup-insert p.id k p s.proposals ∙ rw same) ∙ e)) b
    | inr other ↦
        IsBacked-cons env q.state q.script_hash (written p) s.log
          (i.proposals k q (sym (lookup-insert p.id k p s.proposals ∙ rw other) ∙ e))
  ];
  rows =
      rows-insert env p.id p (written p ∷ s.log) s.proposals b
        (rows-cons env (written p) s.log s.proposals i.rows);
  named = λ k q e. elim (Bool-cases (str_eq p.id k)) [
    | inl same ↦
        sym (ap (λ x. x.id) (some_inj p q (sym (lookup-insert p.id k p s.proposals ∙ rw same) ∙ e)))
        ∙ (eq_iff p.id k).0 same
    | inr other ↦ i.named k q (sym (lookup-insert p.id k p s.proposals ∙ rw other) ∙ e)
  ];
  gated = (b.clean, i.gated);
}

pub there_inserted :
    (p : Proposal) (d : Dict Proposal) → is_there (lookup p.id (insert p.id p d)) ≡ true
there_inserted p d = ground (arith, lookup-insert p.id p.id p d, eq_iff p.id p.id)

-- A proposal that `transition` returns.
pub record Moved (env : Env) (p : Proposal) (next : ProposalState) (q : Proposal) (s : Sys)
    : Type 0 where
  pub at_hand : AtHand env q s
  pub state : q.state ≡ next
  pub script_hash : q.script_hash ≡ p.script_hash

pub transition-Holds :
    (env : Env) (p : Proposal) (next : ProposalState) (actor reason : String) (s : Sys)
    → IsSafe env s
    → is_there (lookup p.id s.proposals) ≡ true
    → (can_transition_to p.state next ≡ true
        → IsBacked env next p.script_hash (written (moved next (env.now s.calls) p) ∷ s.log))
    → Holds env (Moved env p next) (transition env p next actor reason s)
unfolding transition
transition-Holds env p next actor reason s i there step =
    let p' = moved next (env.now s.calls) p in
    elim (Bool-cases (can_transition_to p.state next)) [
      | inr edge ↦ simp edge i
      | inl edge ↦ elim (Bool-cases (env.ok s.calls)) [
        | inr ok ↦ simp (edge, ok) (IsSafe-bump env s i)
        | inl ok ↦
            let j = IsSafe-written env p' (bump s) (IsSafe-bump env s i) (step edge) in
            elim (Bool-cases (env.ok (suc s.calls))) [
              | inr ok' ↦
                  simp (edge, ok, there, ok')
                    (record {
                      scripts = j.scripts;
                      proposals = j.proposals;
                      rows = j.rows;
                      named = j.named;
                      gated = j.gated;
                    })
              | inl ok' ↦
                  simp (edge, ok, there, ok')
                    (
                      record {
                        scripts = j.scripts;
                        proposals = j.proposals;
                        rows = j.rows;
                        named = j.named;
                        gated = j.gated;
                      },
                      record {
                        at_hand = record {
                          there = there_inserted p' s.proposals;
                          backed = step edge;
                        };
                        state = refl;
                        script_hash = refl;
                      },
                    )
            ]
      ]
    ]

pub get_proposal-Holds :
    (env : Env) (id : String) (s : Sys)
    → IsSafe env s
    → Holds env (AtHand env) (get_proposal env id s)
get_proposal-Holds env id s i = elim (Bool-cases (env.ok s.calls)) [
  | inr ok ↦ simp ok (IsSafe-bump env s i)
  | inl ok ↦ elim (Option-cases (lookup id s.proposals)) [
    | inl e ↦ simp (ok, e) (IsSafe-bump env s i)
    | inr (p, e) ↦
        simp (ok, e)
          (
            IsSafe-bump env s i,
            record { there = rw (i.named id p e, e) refl; backed = i.proposals id p e },
          )
  ]
]

-- The script that the table holds has this hash; a proposal at hand stays so.
pub get_script-Holds :
    (env : Env) (p : Proposal) (s : Sys)
    → IsSafe env s
    → AtHand env p s
    → Holds env
        (λ sc t. (env.hash sc.body ≡ p.script_hash) × AtHand env p t)
        (get_script env p.script_hash s)
get_script-Holds env p s i at = elim (Bool-cases (env.ok s.calls)) [
  | inr ok ↦ simp ok (IsSafe-bump env s i)
  | inl ok ↦ elim (Option-cases (lookup p.script_hash s.scripts)) [
    | inl e ↦ simp (ok, e) (IsSafe-bump env s i)
    | inr (sc, e) ↦
        simp (ok, e)
          (
            IsSafe-bump env s i,
            (i.scripts p.script_hash sc e, record { there = at.there; backed = at.backed }),
          )
  ]
]
