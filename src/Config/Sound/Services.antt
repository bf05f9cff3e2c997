-- ===== src/Config/Sound/Services.antt =====
-- What the loop over the services in validate (internal/config/config.go) ensures.
use server_assistant.Prelude.{
  String, ◌≡◌, refl, Bool, false, not, ◌&&◌, List, [], ◌∷◌, arith, eq_iff, All,
}
use server_assistant.Prelude.Int.{ℤ}
use server_assistant.Config.Checked.{Checked, good, accepted_bind, accepted_guard, accepted_within}
use server_assistant.Config.Texts.{is_empty}
use server_assistant.Config.Records.{ServiceConfig}
use server_assistant.Config.Blocks.{contains}
use server_assistant.Config.Validate.{resolve_services, service_names}
use server_assistant.Config.Sound.{IsServiceSound, resolve_service-IsServiceSound, transport_good}

-- No name occurs twice.
abbrev pub AllDistinct : List String → Type 0
AllDistinct [] = Unit
AllDistinct (name ∷ names) = (contains name names ≡ false) × AllDistinct names

abbrev Unseen : List String → ServiceConfig → Type 0
Unseen seen s = contains s.name seen ≡ false

-- `seen` holds the names of the services before these.
pub record AreServed (has_ssh : Bool) (seen : List String) (ts : List ServiceConfig) : Type 0 where
  pub sound : All IsServiceSound ts
  pub reachable : All (λ t. (not (is_empty t.container) && not has_ssh) ≡ false) ts
  pub distinct : AllDistinct (service_names ts)
  fresh : All (Unseen seen) ts

Unseen-first :
    (name : String) (seen : List String) (ts : List ServiceConfig)
    → All (Unseen (name ∷ seen)) ts
    → (contains name (service_names ts) ≡ false) × All (Unseen seen) ts
Unseen-first name seen [] h = (refl, tt)
Unseen-first name seen (t ∷ ts) h =
    ground (arith, Unseen-first name seen ts h.1, eq_iff name t.name, eq_iff t.name name)

pub resolve_services-AreServed :
    (parse : String → Checked ℤ) (has_ssh : Bool) (seen : List String) (ss ts : List ServiceConfig)
    → resolve_services parse has_ssh seen ss ≡ good ts
    → AreServed has_ssh seen ts
unfolding resolve_services
resolve_services-AreServed parse has_ssh seen [] ts h =
    transport_good (AreServed has_ssh seen)
      (record { sound = tt; reachable = tt; distinct = tt; fresh = tt }) h
resolve_services-AreServed parse has_ssh seen (s ∷ ss) ts h =
    let r = accepted_within _ _ _ h in
    let c = accepted_guard _ _ _ r.2 in
    let d = accepted_guard _ _ _ c.1 in
    let o = accepted_bind _ _ d.1 in
    let rest = resolve_services-AreServed parse has_ssh (r.0.name ∷ seen) ss o.0 o.1 in
    let (first, others) = Unseen-first r.0.name seen o.0 rest.fresh in
    transport_good (AreServed has_ssh seen)
      (record {
        sound = (resolve_service-IsServiceSound parse s r.0 r.1, rest.sound);
        reachable = (c.0, rest.reachable);
        distinct = (first, rest.distinct);
        fresh = (d.0, others);
      })
      o.2
