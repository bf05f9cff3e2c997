-- ===== src/Scripts/Revocation.antt =====
-- A grant that RevokeGrant of internal/scripts/grants.go has revoked stays revoked.
use server_assistant.Prelude.{
  ℕ, ◌+◌, String, ◌≡◌, ◌≢◌, refl, sym, ap, ◌∙◌, inl, inr, true, none, some, List, [], ◌∷◌, str_eq,
  eq_iff, arith, Bool-cases, Option-cases,
}
use server_assistant.Prelude.Dict.{lookup, lookup-insert}
use server_assistant.Scripts.Domain.{GrantScope, Grant, is_revoked}
use server_assistant.Scripts.Store.{done, bump, Env, Sys}
use server_assistant.Scripts.Grants.{
  for_scope, GrantTtls, issue_grant, touch_grant, revoke_grant, check_grant, update_grant,
}
use server_assistant.Scripts.Calls.{
  Call, propose_call, edit_call, approve_call, deny_call, expire_call, execute_call, issue_call,
  touch_call, revoke_call, perform, run_calls,
}
use server_assistant.Scripts.Frame.{
  propose-Keeps, edit-Keeps, approve-Keeps, deny-Keeps, expire-Keeps, execute-Keeps,
}

-- The table holds a revoked grant under this id.
pub record IsRevoked (id : String) (s : Sys) : Type 0 where
  pub grant : Grant
  pub stored : lookup id s.grants ≡ some grant
  pub revoked : is_revoked grant ≡ true

kept-IsRevoked : (id : String) (s t : Sys) → t.grants ≡ s.grants → IsRevoked id s → IsRevoked id t
kept-IsRevoked id s t h i = record {
  grant = i.grant;
  stored = ap (lookup id) h ∙ i.stored;
  revoked = i.revoked;
}

issue-IsRevoked :
    (env : Env) (id h : String) (scope : GrantScope) (key session_id : String) (ttls : GrantTtls)
    (s : Sys)
    → IsRevoked id s
    → IsRevoked id (issue_grant env h scope key session_id ttls s).0
unfolding issue_grant
issue-IsRevoked env id h scope key session_id ttls s i =
    let g : Grant = record {
      id = env.new_id s.calls;
      script_hash = h;
      scope = scope;
      session_id = session_id;
      api_key_id = key;
      granted_at = env.now s.calls;
      expires_at = some (env.now s.calls + for_scope ttls scope);
      last_run_at = none;
      revoked_at = none;
    } in
    record {
      grant = i.grant;
      stored = ground (arith, i.stored, eq_iff g.id id, lookup-insert g.id id g s.grants);
      revoked = i.revoked;
    }

grant_inj : (a b : Grant) → some a ≡ some b → a ≡ b
grant_inj a b e = cc

update-IsRevoked :
    (f : Grant → Grant) (id other : String) (s : Sys)
    → ((g : Grant) → is_revoked g ≡ true → is_revoked (f g) ≡ true)
    → IsRevoked id s
    → IsRevoked id (update_grant f other (lookup other s.grants) s)
update-IsRevoked f id other s keeps i = elim (Option-cases (lookup other s.grants)) [
  | inl e ↦ simp e i
  | inr (g, e) ↦ elim (Bool-cases (str_eq other id)) [
    | inl same ↦ simp e (record {
      grant = f g;
      stored = lookup-insert other id (f g) s.grants ∙ rw same;
      revoked = keeps g (
          ap is_revoked (
            grant_inj g i.grant
              (sym e ∙ ap (λ k. lookup k s.grants) ((eq_iff other id).0 same) ∙ i.stored))
          ∙ i.revoked);
    })
    | inr differs ↦ simp e (record {
      grant = i.grant;
      stored = lookup-insert other id (f g) s.grants ∙ rw differs i.stored;
      revoked = i.revoked;
    })
  ]
]

touch-IsRevoked :
    (env : Env) (id other : String) (at : ℕ) (s : Sys)
    → IsRevoked id s
    → IsRevoked id (touch_grant env other at s).0
unfolding touch_grant
touch-IsRevoked env id other at s i = elim (Bool-cases (env.ok s.calls)) [
  | inr e ↦ simp e (record { grant = i.grant; stored = i.stored; revoked = i.revoked })
  | inl e ↦ simp e (
      update-IsRevoked (λ g. record g { last_run_at = some at }) id other (bump s) (λ g r. r)
        (record { grant = i.grant; stored = i.stored; revoked = i.revoked }))
]

revoke-IsRevoked :
    (env : Env) (id other : String) (s : Sys)
    → IsRevoked id s
    → IsRevoked id (revoke_grant env other s).0
unfolding revoke_grant
revoke-IsRevoked env id other s i = elim (Bool-cases (env.ok s.calls)) [
  | inr e ↦ simp e (record { grant = i.grant; stored = i.stored; revoked = i.revoked })
  | inl e ↦ simp e (
      update-IsRevoked (λ g. record g { revoked_at = some (env.now s.calls) }) id other (bump s)
        (λ g r. refl) (record { grant = i.grant; stored = i.stored; revoked = i.revoked }))
]

perform-IsRevoked :
    (env : Env) (id : String) (c : Call) (s : Sys) → IsRevoked id s → IsRevoked id (perform env c s)
unfolding perform
perform-IsRevoked env id (propose_call text actor) s i =
    kept-IsRevoked id s _ (propose-Keeps env text actor s).grants i
perform-IsRevoked env id (edit_call k text actor) s i =
    kept-IsRevoked id s _ (edit-Keeps env k text actor s).grants i
perform-IsRevoked env id (approve_call k actor) s i =
    kept-IsRevoked id s _ (approve-Keeps env k actor s).grants i
perform-IsRevoked env id (deny_call k actor reason) s i =
    kept-IsRevoked id s _ (deny-Keeps env k actor reason s).grants i
perform-IsRevoked env id (expire_call k actor) s i =
    kept-IsRevoked id s _ (expire-Keeps env k actor s).grants i
perform-IsRevoked env id (execute_call k actor) s i =
    kept-IsRevoked id s _ (execute-Keeps env k actor s).grants i
perform-IsRevoked env id (issue_call h scope key session_id ttls) s i =
    issue-IsRevoked env id h scope key session_id ttls s i
perform-IsRevoked env id (touch_call k at) s i = touch-IsRevoked env id k at s i
perform-IsRevoked env id (revoke_call k) s i = revoke-IsRevoked env id k s i

run_calls-IsRevoked :
    (env : Env) (id : String) (cs : List Call) (s : Sys)
    → IsRevoked id s
    → IsRevoked id (run_calls env cs s)
unfolding run_calls
run_calls-IsRevoked env id [] s i = i
run_calls-IsRevoked env id (c ∷ cs) s i =
    run_calls-IsRevoked env id cs (perform env c s) (perform-IsRevoked env id c s i)

refused :
    (env : Env) (id : String) (now : ℕ) (g : Grant) (s : Sys)
    → IsRevoked id s
    → (check_grant env id now s).1 ≢ done g
unfolding check_grant
refused env id now g s i = elim (Bool-cases (env.ok s.calls)) [
  | inr e ↦ simp e (λ x. cc)
  | inl e ↦ simp (e, i.stored, i.revoked) (λ x. cc)
]

revoke_grant-IsRevoked :
    (env : Env) (id : String) (old : Grant) (s : Sys)
    → lookup id s.grants ≡ some old
    → env.ok s.calls ≡ true
    → IsRevoked id (revoke_grant env id s).0
unfolding revoke_grant
revoke_grant-IsRevoked env id old s e ok =
    simp (ok, e)
      (record {
        grant = record old { revoked_at = some (env.now s.calls) };
        stored = ground (
          arith,
          eq_iff id id,
          lookup-insert id id (record old { revoked_at = some (env.now s.calls) }) s.grants,
        );
        revoked = refl;
      })

-- Once RevokeGrant has reached the store for a grant that is there, CheckGrant never returns a grant
-- for its id again: at no time, whatever calls are made afterwards, one at a time, and whatever the
-- store answers to them.
pub revocation_is_final :
    (env : Env) (id : String) (old : Grant) (s : Sys) (cs : List Call) (now : ℕ) (g : Grant)
    → lookup id s.grants ≡ some old
    → env.ok s.calls ≡ true
    → (check_grant env id now (run_calls env cs (revoke_grant env id s).0)).1 ≢ done g
revocation_is_final env id old s cs now g e ok =
    refused env id now g (run_calls env cs (revoke_grant env id s).0) (
      run_calls-IsRevoked env id cs (revoke_grant env id s).0
        (revoke_grant-IsRevoked env id old s e ok))
