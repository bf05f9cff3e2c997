-- ===== src/Monitor/Hub/Listeners.antt =====
-- One listener of internal/monitor/hub.go among the others: what it reads of what is broadcast.
use server_assistant.Prelude.{
  ℕ, suc, ◌+◌, ◌≤◌, ◌≡◌, refl, sym, ap, ◌∙◌, Bool, true, false, not, ◌&&◌, Option, none, some, List,
  [], ◌∷◌, ◌++◌, map, length, length-append, ltb, ◌==◌, if◌then◌else◌, All, arith, Bool-cases, inl,
  inr,
}
use server_assistant.Core.Domain.{ServiceView}
use server_assistant.Monitor.Hub.{
  capacity, offer, offer_to, drop_first, take_from, without, Listener, Hub, new_hub, subscribe,
  cancel, broadcast_all, receive_one, HubCall, subscribed, cancelled, sent, received, hub_step,
  hub_run, IsListening, hub_step-IsListening, hub_run-IsListening,
}
use server_assistant.Monitor.Hub.Order.{
  first_of, Subsequence, nothing, keep, leave, append_nil, append_assoc, first_and_rest,
  length-drop,
}

-- The channel of the listener with this number.
abbrev pub channel_of : ℕ → List Listener → Option (List ServiceView)
channel_of id [] = none
channel_of id (l ∷ ls) = if l.id == id then some l.channel else channel_of id ls

abbrev read_from : Option (List ServiceView) → List ServiceView
read_from none = []
read_from (some ch) = first_of ch

-- What the listener reads in these calls, in its order.
unfoldable pub heard : ℕ → List HubCall → Hub → List ServiceView
heard id [] h = []
heard id (subscribed ∷ cs) h = heard id cs (hub_step subscribed h)
heard id (cancelled k ∷ cs) h = heard id cs (hub_step (cancelled k) h)
heard id (sent v ∷ cs) h = heard id cs (hub_step (sent v) h)
heard id (received k ∷ cs) h =
    (if k == id then read_from (channel_of id h.subs) else [])
    ++ heard id cs (hub_step (received k) h)

-- What is broadcast in these calls.
abbrev pub sent_views : List HubCall → List ServiceView
sent_views [] = []
sent_views (sent v ∷ cs) = v ∷ sent_views cs
sent_views (c ∷ cs) = sent_views cs

-- None of these calls cancels the listener.
abbrev pub stays : ℕ → List HubCall → Bool
stays id [] = true
stays id (cancelled k ∷ cs) = not (k == id) && stays id cs
stays id (c ∷ cs) = stays id cs

-- From a channel that holds `held`: what the listener reads and then still holds is what it held and
-- after it some of what was broadcast, in its order; all of it, if there was room for all of it.
pub record Hears (id : ℕ) (cs : List HubCall) (h : Hub) (held : List ServiceView) : Type 0 where
  pub channel : List ServiceView
  pub new : List ServiceView
  pub kept : channel_of id (hub_run cs h).subs ≡ some channel
  pub bounded : length channel ≤ 16
  pub complete : heard id cs h ++ channel ≡ held ++ new
  pub ordered : Subsequence new (sent_views cs)
  pub lossless : length held + length (sent_views cs) ≤ 16 → new ≡ sent_views cs

channel_of-without :
    (id k : ℕ) (ls : List Listener)
    → (k == id) ≡ false
    → channel_of id (without k ls) ≡ channel_of id ls
channel_of-without id k [] other = refl
channel_of-without id k (l ∷ ls) other = ground (arith, other, channel_of-without id k ls other)

channel_of-offer :
    (id : ℕ) (v : ServiceView) (ls : List Listener) (ch : List ServiceView)
    → channel_of id ls ≡ some ch
    → channel_of id (map (offer_to v) ls) ≡ some (offer v ch)
channel_of-offer id v [] ch e = absurd (ground (arith, e))
channel_of-offer id v (l ∷ ls) ch e = elim (Bool-cases (l.id == id)) [
  | inl this ↦ let same : l.channel ≡ ch = ground (arith, this, e) in simp this (rw same refl)
  | inr other ↦ simp other (channel_of-offer id v ls ch (ground (arith, other, e)))
]

channel_of-take :
    (id : ℕ) (ls : List Listener) (ch : List ServiceView)
    → channel_of id ls ≡ some ch
    → channel_of id (map (take_from id) ls) ≡ some (drop_first ch)
channel_of-take id [] ch e = absurd (ground (arith, e))
channel_of-take id (l ∷ ls) ch e = elim (Bool-cases (l.id == id)) [
  | inl this ↦ let same : l.channel ≡ ch = ground (arith, this, e) in simp this (rw same refl)
  | inr other ↦ simp other (channel_of-take id ls ch (ground (arith, other, e)))
]

channel_of-other :
    (id k : ℕ) (ls : List Listener)
    → (k == id) ≡ false
    → channel_of id (map (take_from k) ls) ≡ channel_of id ls
channel_of-other id k [] other = refl
channel_of-other id k (l ∷ ls) other = ground (arith, other, channel_of-other id k ls other)

numbered :
    (id next : ℕ) (ls : List Listener) (ch : List ServiceView)
    → All (IsListening next) ls
    → channel_of id ls ≡ some ch
    → (suc id ≤ next) × (length ch ≤ 16)
numbered id next [] ch all e = absurd (ground (arith, e))
numbered id next (l ∷ ls) ch (first, rest) e = elim (Bool-cases (l.id == id)) [
  | inl this ↦
      let same : l.channel ≡ ch = ground (arith, this, e) in
      (ground (arith, this, first.numbered), rw (← same) first.bounded)
  | inr other ↦ numbered id next ls ch rest (ground (arith, other, e))
]

-- The calls that come after one that leaves the listener's channel alone.
quiet_step :
    (id : ℕ) (c : HubCall) (cs : List HubCall) (h : Hub) (held : List ServiceView)
    → heard id (c ∷ cs) h ≡ heard id cs (hub_step c h)
    → sent_views (c ∷ cs) ≡ sent_views cs
    → Hears id cs (hub_step c h) held
    → Hears id (c ∷ cs) h held
unfolding hub_run
quiet_step id c cs h held same silent i = record {
  channel = i.channel;
  new = i.new;
  kept = i.kept;
  bounded = i.bounded;
  complete = rw same i.complete;
  ordered = rw silent i.ordered;
  lossless = rw silent i.lossless;
}

sent_step :
    (id : ℕ) (v : ServiceView) (cs : List HubCall) (h : Hub) (held : List ServiceView)
    → length held ≤ 16
    → Hears id cs (hub_step (sent v) h) (offer v held)
    → Hears id (sent v ∷ cs) h held
unfolding hub_run heard
sent_step id v cs h held small i = elim (Bool-cases (ltb (length held) capacity)) [
  | inl room ↦
      let put : offer v held ≡ held ++ (v ∷ []) = simp room refl in
      record {
        channel = i.channel;
        new = v ∷ i.new;
        kept = i.kept;
        bounded = i.bounded;
        complete = i.complete ∙ ap (λ l. l ++ i.new) put ∙ append_assoc held (v ∷ []) i.new;
        ordered = keep v i.ordered;
        lossless = λ fits.
            ap (λ l. v ∷ l)
              (i.lossless (omega (arith, fits, ap length put, length-append held (v ∷ []))));
      }
  | inr full ↦
      let dropped : offer v held ≡ held = simp full refl in
      record {
        channel = i.channel;
        new = i.new;
        kept = i.kept;
        bounded = i.bounded;
        complete = i.complete ∙ ap (λ l. l ++ i.new) dropped;
        ordered = leave v i.ordered;
        lossless = λ fits. absurd (ground (arith, fits, full));
      }
]

read_step :
    (id : ℕ) (cs : List HubCall) (h : Hub) (held : List ServiceView)
    → heard id (received id ∷ cs) h ≡ first_of held ++ heard id cs (hub_step (received id) h)
    → Hears id cs (hub_step (received id) h) (drop_first held)
    → Hears id (received id ∷ cs) h held
unfolding hub_run
read_step id cs h held reads i = record {
  channel = i.channel;
  new = i.new;
  kept = i.kept;
  bounded = i.bounded;
  complete =
      ap (λ l. l ++ i.channel) reads
      ∙ append_assoc (first_of held) (heard id cs (hub_step (received id) h)) i.channel
      ∙ ap (λ l. first_of held ++ l) i.complete
      ∙ sym (append_assoc (first_of held) (drop_first held) i.new)
      ∙ ap (λ l. l ++ i.new) (first_and_rest held);
  ordered = i.ordered;
  lossless = λ fits. i.lossless (omega (arith, fits, length-drop held));
}

hub_run-Hears :
    (id : ℕ) (cs : List HubCall) (h : Hub) (held : List ServiceView)
    → All (IsListening h.next_id) h.subs
    → channel_of id h.subs ≡ some held
    → stays id cs ≡ true
    → Hears id cs h held
unfolding hub_run heard
hub_run-Hears id [] h held all e stay = record {
  channel = held;
  new = [];
  kept = e;
  bounded = (numbered id h.next_id h.subs held all e).1;
  complete = sym (append_nil held);
  ordered = nothing;
  lossless = λ fits. refl;
}
hub_run-Hears id (subscribed ∷ cs) h held all e stay =
    let n = numbered id h.next_id h.subs held all e in
    quiet_step id subscribed cs h held refl refl (
      hub_run-Hears id cs (hub_step subscribed h) held (hub_step-IsListening subscribed h all)
        (unfold hub_step in unfold subscribe in ground (arith, e, n.0)) stay)
hub_run-Hears id (cancelled k ∷ cs) h held all e stay =
    let other : (k == id) ≡ false = ground (arith, stay) in
    quiet_step id (cancelled k) cs h held refl refl (
      hub_run-Hears id cs (hub_step (cancelled k) h) held (hub_step-IsListening (cancelled k) h all)
        (unfold hub_step in unfold cancel in (channel_of-without id k h.subs other ∙ e))
        (ground (arith, stay)))
hub_run-Hears id (sent v ∷ cs) h held all e stay =
    sent_step id v cs h held (numbered id h.next_id h.subs held all e).1 (
      hub_run-Hears id cs (hub_step (sent v) h) (offer v held) (hub_step-IsListening (sent v) h all)
        (unfold hub_step in unfold broadcast_all in channel_of-offer id v h.subs held e) stay)
hub_run-Hears id (received k ∷ cs) h held all e stay = elim (Bool-cases (k == id)) [
  | inl this ↦
      let same : k ≡ id = ground (arith, this) in
      rw same (
        read_step id cs h held (ground (arith, e)) (
          hub_run-Hears id cs (hub_step (received id) h) (drop_first held)
            (hub_step-IsListening (received id) h all)
            (unfold hub_step in unfold receive_one in channel_of-take id h.subs held e) stay))
  | inr other ↦ quiet_step id (received k) cs h held (simp other refl) refl (
      hub_run-Hears id cs (hub_step (received k) h) held (hub_step-IsListening (received k) h all)
        (unfold hub_step in unfold receive_one in (channel_of-other id k h.subs other ∙ e)) stay)
]

-- However the hub came about from its start, and whatever the other listeners do, slow ones and
-- cancelled ones too: what a listener that is not cancelled reads and then still holds, at most
-- sixteen views, is what it held before and after it some of what was broadcast since, in this order
-- and none of it twice; and all of what was broadcast since, if this and what it held are sixteen views
-- or fewer.
pub listener-Hears :
    (before cs : List HubCall) (id : ℕ) (held : List ServiceView)
    → let h = hub_run before new_hub in
      channel_of id h.subs ≡ some held → stays id cs ≡ true → Hears id cs h held
listener-Hears before cs id held e stay =
    hub_run-Hears id cs (hub_run before new_hub) held (hub_run-IsListening before new_hub tt) e stay
