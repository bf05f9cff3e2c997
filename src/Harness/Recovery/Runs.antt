-- ===== src/Harness/Recovery/Runs.antt =====
-- Every move of internal/harness/harness.go keeps the honesty of its records.
use server_assistant.Prelude.{
  ℕ, String, ◌≡◌, refl, inl, inr, Bool, List, [], ◌∷◌, arith, eq_iff, Option-cases,
}
use server_assistant.Prelude.Dict.{lookup, lookup-insert}
use server_assistant.Core.Domain.{CommittedStatus}
use server_assistant.Harness.{Options}
use server_assistant.Harness.Run.{
  Place, idle, started, proposing, announcing, waiting, expiring, decided, dispatched, settling,
  watching, closing, cooling, leaving, Sys, World, go, move, commit, operator, halting, rearming,
  going, run, start, Move,
}
use server_assistant.Harness.Recovery.{
  IsEarned, IsHonest, going_started, going_proposing, going_announcing, going_waiting,
  going_expiring, going_decided, going_dispatched, going_settling, going_watching, going_closing,
  going_cooling, going_leaving,
}

go-IsHonest :
    (o : Options) (w : World) (p : Place) (s : Sys)
    → s.place ≡ p
    → IsHonest s
    → IsHonest (go o w p s)
unfolding go
go-IsHonest o w idle s e i = i
go-IsHonest o w (started id cs) s e i = going_started o w s i id cs e
go-IsHonest o w (proposing c) s e i = going_proposing o w s i c e
go-IsHonest o w (announcing c) s e i = going_announcing o w s i c e
go-IsHonest o w (waiting c) s e i = going_waiting o w s i c e
go-IsHonest o w (expiring c) s e i = going_expiring o w s i c e
go-IsHonest o w (decided c msg) s e i = going_decided o w s i c msg e
go-IsHonest o w (dispatched c) s e i = going_dispatched o w s i c e
go-IsHonest o w (settling c already) s e i = going_settling o w s i c already e
go-IsHonest o w (watching c) s e i = going_watching o w s i c e
go-IsHonest o w (closing c) s e i = going_closing o w s i c e
go-IsHonest o w (cooling c) s e i = going_cooling o w s i c e
go-IsHonest o w leaving s e i = going_leaving o w s i e

commit-IsHonest :
    (o : Options) (now : ℕ) (id : String) (cs : CommittedStatus) (s : Sys)
    → IsHonest s
    → IsHonest (move o (commit now id cs) s)
unfolding move
commit-IsHonest o now id cs s i = record {
  times = λ k t at h l. ground (
    arith,
    h,
    l,
    i.times k t at,
    lookup-insert cs.service k cs.changed_at s.harness.last_up,
    eq_iff cs.service k,
  );
  signals = elim (Option-cases s.harness.active) [
    | inl e ↦ ground (arith, e)
    | inr (st, e) ↦
        ground (arith, i.signals, e, eq_iff st.subject cs.service, eq_iff cs.service st.subject)
  ];
  at = ground (arith, i.at);
  earned = ground (arith, i.earned);
}

operator-IsHonest :
    (o : Options) (now : ℕ) (id who : String) (approve ok : Bool) (s : Sys)
    → IsHonest s
    → IsHonest (move o (operator now id who approve ok) s)
unfolding move
operator-IsHonest o now id who approve ok s i = record {
  times = λ k t at h l. ground (arith, h, l, i.times k t at);
  signals = ground (arith, i.signals);
  at = ground (arith, i.at);
  earned = ground (arith, i.earned, i.signals);
}

move-IsHonest : (o : Options) (v : Move) (s : Sys) → IsHonest s → IsHonest (move o v s)
unfolding move
move-IsHonest o (commit now id cs) s i = commit-IsHonest o now id cs s i
move-IsHonest o (operator now id who approve ok) s i = operator-IsHonest o now id who approve ok s i
move-IsHonest o (halting reason) s i = record {
  times = i.times;
  signals = i.signals;
  at = i.at;
  earned = i.earned;
}
move-IsHonest o rearming s i = record {
  times = i.times;
  signals = i.signals;
  at = i.at;
  earned = i.earned;
}
move-IsHonest o (going w) s i = go-IsHonest o w s.place s refl i

run-IsHonest : (o : Options) (vs : List Move) (s : Sys) → IsHonest s → IsHonest (run o vs s)
unfolding run
run-IsHonest o [] s i = i
run-IsHonest o (v ∷ vs) s i = run-IsHonest o vs (move o v s) (move-IsHonest o v s i)

start-IsHonest : IsHonest start
unfolding lookup
start-IsHonest = record { times = λ k t at h l. cc; signals = tt; at = tt; earned = tt }

-- In every run of the engine from its start, whatever the interleaving and the answer of the
-- actuator: before a record that says recovered is saved, the spine has committed UP for its subject,
-- and this UP came after the last call of the actuator, or its change is no earlier than the approval
-- of the record.
pub recovered-IsEarned : (o : Options) (vs : List Move) → IsEarned (run o vs start).log
recovered-IsEarned o vs = (run-IsHonest o vs start start-IsHonest).earned
