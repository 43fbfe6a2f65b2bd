-- ===== src/Handlers/Payment/Routes.antt =====
-- getAlternativeRoutes of api/handlers/payment_handler.go, and the route of each attempt.
use vibranium_quadsquad.Base.{
  ℕ, zero, suc, ◌-◌, ◌≤◌, ◌≡◌, refl, String, Bool, false, not, ◌&&◌, Option, none, some, List, [],
  ◌∷◌, if◌then◌else◌, length, has, str_eq, ◌==◌, arith, Bool-cases, inl, inr,
}
use vibranium_quadsquad.Base.Slots.{get_elem?, get_elem?-none}

unfoldable pub hubs : List String
hubs = "USA" ∷ "GBR" ∷ "HKG" ∷ "SGP" ∷ "ARE" ∷ "CHE" ∷ "DEU" ∷ "JPN" ∷ []

abbrev pub last_of : String → List String → String
last_of x [] = x
last_of x (y ∷ ys) = last_of y ys

abbrev pub is_way_round : String → String → List String → String → Bool
is_way_round source destination original hub =
    not (str_eq hub source) && not (str_eq hub destination) && not (has hub original)

-- The loop over the hubs, which stops once `n` more routes are found.
unfoldable pub via_hubs : String → String → List String → List String → ℕ → List (List String)
via_hubs source destination original [] n = []
via_hubs source destination original (hub ∷ hs) zero = []
via_hubs source destination original (hub ∷ hs) (suc n) =
    let found = (source ∷ hub ∷ destination ∷ []) ∷ via_hubs source destination original hs n in
    let rest = via_hubs source destination original hs (suc n) in
    if is_way_round source destination original hub then found else rest

unfoldable pub get_alternative_routes : List String → List (List String)
unfolding hubs via_hubs
get_alternative_routes [] = []
get_alternative_routes (a ∷ []) = []
get_alternative_routes (a ∷ b ∷ r) = via_hubs a (last_of b r) (a ∷ b ∷ r) hubs 2

-- The route of an attempt: the transaction's own first, then `alternativeRoutes[attempt-1]`; `none`
-- when there is no such route.
unfoldable pub route_for : List (List String) → List String → ℕ → Option (List String)
route_for alternatives original attempt =
    if attempt == 1 then some original else get_elem? alternatives (attempt - 1)

-- A route round the original one: from its source to its destination over a country not on it.
pub record GoesRound (source destination : String) (original route : List String) : Type 0 where
  pub hub : String
  pub shape : route ≡ source ∷ hub ∷ destination ∷ []
  pub fresh : has hub original ≡ false

abbrev pub All : {A : Type 0} → (A → Type 0) → List A → Type 0
All P [] = Unit
All P (x ∷ xs) = P x × All P xs

via_hubs-GoesRound :
    (source destination : String) (original hs : List String) (n : ℕ)
    → All (GoesRound source destination original) (via_hubs source destination original hs n)
      × (length (via_hubs source destination original hs n) ≤ n)
unfolding via_hubs
via_hubs-GoesRound source destination original [] n = (tt, omega arith)
via_hubs-GoesRound source destination original (hub ∷ hs) zero = (tt, omega arith)
via_hubs-GoesRound source destination original (hub ∷ hs) (suc n) =
    let (found, few) = via_hubs-GoesRound source destination original hs n in
    let (rest, fewer) = via_hubs-GoesRound source destination original hs (suc n) in
    elim (Bool-cases (is_way_round source destination original hub)) [
      | inl yes_ ↦
          rw yes_
            ((record { hub = hub; shape = refl; fresh = ground arith }, found), omega (arith, few))
      | inr no_ ↦ rw no_ (rest, fewer)
    ]

-- For a route of two or more countries there are at most two alternatives, and each goes from its
-- source to its destination over one country that is not on it.
pub get_alternative_routes-GoesRound :
    (a b : String) (r : List String)
    → All (GoesRound a (last_of b r) (a ∷ b ∷ r)) (get_alternative_routes (a ∷ b ∷ r))
      × (length (get_alternative_routes (a ∷ b ∷ r)) ≤ 2)
unfolding get_alternative_routes
get_alternative_routes-GoesRound a b r = via_hubs-GoesRound a (last_of b r) (a ∷ b ∷ r) hubs 2

few_routes : (original : List String) → length (get_alternative_routes original) ≤ 2
unfolding get_alternative_routes
few_routes [] = omega arith
few_routes (a ∷ []) = omega arith
few_routes (a ∷ b ∷ r) = (get_alternative_routes-GoesRound a b r).1

-- There is never a route for the third attempt.
pub route_for-third :
    (original : List String) → route_for (get_alternative_routes original) original 3 ≡ none
unfolding route_for
route_for-third original = get_elem?-none (get_alternative_routes original) 2 (few_routes original)
