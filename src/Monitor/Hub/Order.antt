-- ===== src/Monitor/Hub/Order.antt =====
-- The order of what a listener of internal/monitor/hub.go reads: lists with elements left out.
use server_assistant.Prelude.{◌≤◌, ◌≡◌, refl, ap, List, [], ◌∷◌, ◌++◌, length, arith}
use server_assistant.Core.Domain.{ServiceView}
use server_assistant.Monitor.Hub.{drop_first}

abbrev pub first_of : List ServiceView → List ServiceView
first_of [] = []
first_of (v ∷ vs) = v ∷ []

-- The first list is the second with some elements left out.
pub data Subsequence : List ServiceView → List ServiceView → Type 0 where
  nothing : Subsequence [] []
  keep :
      {xs ys : List ServiceView} (v : ServiceView)
      → Subsequence xs ys
      → Subsequence (v ∷ xs) (v ∷ ys)
  leave : {xs ys : List ServiceView} (v : ServiceView) → Subsequence xs ys → Subsequence xs (v ∷ ys)

pub append_nil : (xs : List ServiceView) → xs ++ [] ≡ xs
append_nil [] = refl
append_nil (x ∷ xs) = ap (λ l. x ∷ l) (append_nil xs)

pub append_assoc : (xs ys zs : List ServiceView) → (xs ++ ys) ++ zs ≡ xs ++ (ys ++ zs)
append_assoc [] ys zs = refl
append_assoc (x ∷ xs) ys zs = ap (λ l. x ∷ l) (append_assoc xs ys zs)

pub first_and_rest : (xs : List ServiceView) → first_of xs ++ drop_first xs ≡ xs
first_and_rest [] = refl
first_and_rest (x ∷ xs) = refl

pub length-drop : (xs : List ServiceView) → length (drop_first xs) ≤ length xs
length-drop [] = omega arith
length-drop (x ∷ xs) = omega arith
