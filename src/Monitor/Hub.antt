-- ===== src/Monitor/Hub.antt =====
-- internal/monitor/hub.go: the fan-out of views to the listeners of the dashboard. A channel is the
-- list of what it holds, the oldest first; a subscriber is told by a number that is not used again.
pub mod Order
pub mod Listeners
use server_assistant.Prelude.{
  ℕ, suc, ◌≤◌, ◌≡◌, refl, Bool, true, false, not, Option, none, some, List, [], ◌∷◌, ◌++◌, map,
  length, length-append, ltb, ◌==◌, if◌then◌else◌, All, arith, Bool-cases, inl, inr,
}
use server_assistant.Core.Domain.{ServiceView}

-- make(chan core.ServiceView, 16)
abbrev pub capacity : ℕ
capacity = 16

pub record Listener : Type 0 where
  pub id : ℕ
  pub channel : List ServiceView

pub record Hub : Type 0 where
  pub subs : List Listener
  pub next_id : ℕ

-- newHub
abbrev pub new_hub : Hub
new_hub = record { subs = []; next_id = 0 }

-- subscribe: the listener is the one with the number `next_id` before.
unfoldable pub subscribe : Hub → Hub
subscribe h = record {
  subs = record { id = h.next_id; channel = [] } ∷ h.subs;
  next_id = suc h.next_id;
}

abbrev pub without : ℕ → List Listener → List Listener
without id [] = []
without id (l ∷ ls) = let rest = without id ls in if l.id == id then rest else l ∷ rest

-- The function that subscribe returns; a second call finds nothing to remove.
unfoldable pub cancel : ℕ → Hub → Hub
cancel id h = record h { subs = without id h.subs }

-- The `select` of broadcast: a full channel drops the view.
abbrev pub offer : ServiceView → List ServiceView → List ServiceView
offer v channel = if ltb (length channel) capacity then channel ++ (v ∷ []) else channel

abbrev pub offer_to : ServiceView → Listener → Listener
offer_to v l = record l { channel = offer v l.channel }

-- broadcast
unfoldable pub broadcast_all : ServiceView → Hub → Hub
broadcast_all v h = record h { subs = map (offer_to v) h.subs }

abbrev pub drop_first : List ServiceView → List ServiceView
drop_first [] = []
drop_first (v ∷ vs) = vs

abbrev pub take_from : ℕ → Listener → Listener
take_from id l = if l.id == id then record l { channel = drop_first l.channel } else l

-- A listener reads its channel.
unfoldable pub receive_one : ℕ → Hub → Hub
receive_one id h = record h { subs = map (take_from id) h.subs }

pub data HubCall : Type 0 where
  subscribed : HubCall
  cancelled : ℕ → HubCall
  sent : ServiceView → HubCall
  received : ℕ → HubCall

unfoldable pub hub_step : HubCall → Hub → Hub
hub_step subscribed h = subscribe h
hub_step (cancelled id) h = cancel id h
hub_step (sent v) h = broadcast_all v h
hub_step (received id) h = receive_one id h

unfoldable pub hub_run : List HubCall → Hub → Hub
hub_run [] h = h
hub_run (c ∷ cs) h = hub_run cs (hub_step c h)

-- No channel holds more than its capacity, and every number is below the next one.
pub record IsListening (next : ℕ) (l : Listener) : Type 0 where
  pub bounded : length l.channel ≤ capacity
  pub numbered : suc l.id ≤ next

length-offer :
    (v : ServiceView) (channel : List ServiceView)
    → length channel ≤ capacity
    → length (offer v channel) ≤ capacity
length-offer v channel h = ground (arith, h, length-append channel (v ∷ []))

length-drop_first :
    (channel : List ServiceView)
    → length channel ≤ capacity
    → length (drop_first channel) ≤ capacity
length-drop_first [] h = h
length-drop_first (v ∷ vs) h = omega (arith, h)

without-IsListening :
    (next id : ℕ) (ls : List Listener)
    → All (IsListening next) ls
    → All (IsListening next) (without id ls)
without-IsListening next id [] h = tt
without-IsListening next id (l ∷ ls) (first, others) =
    let rest = without-IsListening next id ls others in
    elim (Bool-cases (l.id == id)) [ inl e ↦ simp e rest | inr e ↦ simp e (first, rest) ]

offer-IsListening :
    (next : ℕ) (v : ServiceView) (ls : List Listener)
    → All (IsListening next) ls
    → All (IsListening next) (map (offer_to v) ls)
offer-IsListening next v [] h = tt
offer-IsListening next v (l ∷ ls) (first, others) = (
  record { bounded = length-offer v l.channel first.bounded; numbered = first.numbered },
  offer-IsListening next v ls others,
)

receive-IsListening :
    (next id : ℕ) (ls : List Listener)
    → All (IsListening next) ls
    → All (IsListening next) (map (take_from id) ls)
receive-IsListening next id [] h = tt
receive-IsListening next id (l ∷ ls) (first, others) =
    let rest = receive-IsListening next id ls others in
    elim (Bool-cases (l.id == id)) [
      | inl e ↦ simp e (
        record { bounded = length-drop_first l.channel first.bounded; numbered = first.numbered },
        rest,
      )
      | inr e ↦ simp e (first, rest)
    ]

later-IsListening :
    (next : ℕ) (ls : List Listener) → All (IsListening next) ls → All (IsListening (suc next)) ls
later-IsListening next [] h = tt
later-IsListening next (l ∷ ls) (first, others) = (
  record { bounded = first.bounded; numbered = omega (arith, first.numbered) },
  later-IsListening next ls others,
)

hub_step-IsListening :
    (c : HubCall) (h : Hub)
    → All (IsListening h.next_id) h.subs
    → All (IsListening (hub_step c h).next_id) (hub_step c h).subs
unfolding hub_step subscribe cancel broadcast_all receive_one
hub_step-IsListening subscribed h i =
    (record { bounded = omega arith; numbered = omega arith }, later-IsListening h.next_id h.subs i)
hub_step-IsListening (cancelled id) h i = without-IsListening h.next_id id h.subs i
hub_step-IsListening (sent v) h i = offer-IsListening h.next_id v h.subs i
hub_step-IsListening (received id) h i = receive-IsListening h.next_id id h.subs i

-- Whatever happens at the hub, in any order: if no channel holds more than sixteen views and every
-- listener is numbered below the next number, then so it is afterwards.
pub hub_run-IsListening :
    (cs : List HubCall) (h : Hub)
    → All (IsListening h.next_id) h.subs
    → All (IsListening (hub_run cs h).next_id) (hub_run cs h).subs
unfolding hub_run
hub_run-IsListening [] h i = i
hub_run-IsListening (c ∷ cs) h i =
    hub_run-IsListening cs (hub_step c h) (hub_step-IsListening c h i)
