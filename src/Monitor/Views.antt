-- ===== src/Monitor/Views.antt =====
-- Lemmas on the dashboard's views of internal/monitor/monitor.go.
use mathlib.Core.List.{foldl}
use text.Mathlib.TextPositions.{eq_refl}
use server_assistant.Prelude.{
  ℕ, String, ◌≡◌, refl, Bool, true, some, List, [], ◌∷◌, map, arith, str_eq, if◌then◌else◌, any,
  get_elem?, suc, zero,
}
use server_assistant.Prelude.Dict.{Dict, lookup-insert}
use server_assistant.Core.Domain.{unknown, ServiceView}
use server_assistant.Monitor.{ServiceRuntime, set_view, unknown_view}
use server_assistant.Monitor.Probe.{view_status}

abbrev pub is_service : String → List ServiceRuntime → Bool
is_service name = any (λ s. str_eq s.name name)

pub view_status-set_view :
    (views : Dict ServiceView) (v : ServiceView) (k : String)
    → view_status (set_view views v) k ≡ (if str_eq v.name k then v.status else view_status views k)
unfolding view_status
view_status-set_view views v k = ground (arith, lookup-insert v.name k v views)

-- Forcing the views of some services: each of them reads UNKNOWN, the others are as before.
pub view_status-force :
    (now : ℕ) (svcs : List ServiceRuntime) (views : Dict ServiceView) (k : String)
    → view_status (foldl set_view views (map (λ s. unknown_view now s.name) svcs)) k
      ≡ (if is_service k svcs then unknown else view_status views k)
view_status-force now [] views k = refl
view_status-force now (s ∷ svcs) views k = ground (
  arith,
  view_status-force now svcs (set_view views (unknown_view now s.name)) k,
  view_status-set_view views (unknown_view now s.name) k,
)

pub is_service-at :
    (svcs : List ServiceRuntime) (i : ℕ) {s : ServiceRuntime}
    → get_elem? svcs i ≡ some s
    → is_service s.name svcs ≡ true
is_service-at [] i h = ground arith
is_service-at (t ∷ svcs) zero h = ground (arith, h, eq_refl t.name)
is_service-at (t ∷ svcs) (suc i) {s} h = ground (arith, is_service-at svcs i h)
