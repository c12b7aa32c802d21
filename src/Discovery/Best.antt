-- ===== src/Discovery/Best.antt =====
-- What an entry holds after responses.
use heterogeneous_network.Base.{
  ◌≤◌, ◌≡◌, refl, List, [], ◌∷◌, some, All, arith, ltb, if◌then◌else◌, if_keeps, ltb→lt,
}
use mathlib.Core.Path.{subst}
use heterogeneous_network.Deferred.{fulfilled, resolve}
use heterogeneous_network.Discovery.Request.{
  DiscoveryResponse, DiscoveryRequestEntry, new_entry, handle_response,
}

pub handle_all : List DiscoveryResponse → DiscoveryRequestEntry → DiscoveryRequestEntry
handle_all [] entry = entry
handle_all (r ∷ rs) entry = handle_all rs (handle_response r entry)

-- The first one of the cheapest responses.
pub cheapest : DiscoveryResponse → List DiscoveryResponse → DiscoveryResponse
cheapest best [] = best
cheapest best (r ∷ rs) = cheapest (if ltb r.cost best.cost then r else best) rs

abbrev pub entry_with : DiscoveryResponse → DiscoveryResponse → DiscoveryRequestEntry
entry_with first best = record { response = some best; promises = fulfilled first ∷ [] }

handle-entry_with :
    (first best r : DiscoveryResponse)
    → handle_response r (entry_with first best)
      ≡ entry_with first (if ltb r.cost best.cost then r else best)
unfolding handle_response resolve
handle-entry_with first best r = ground arith

holds-cheapest :
    (first best : DiscoveryResponse) (rs : List DiscoveryResponse)
    → handle_all rs (entry_with first best) ≡ entry_with first (cheapest best rs)
unfolding handle_all cheapest
holds-cheapest first best [] = refl
holds-cheapest first best (r ∷ rs) =
    rw (handle-entry_with first best r)
      (holds-cheapest first (if ltb r.cost best.cost then r else best) rs)

-- A response that costs no more than the others.
abbrev pub IsLeast : DiscoveryResponse → List DiscoveryResponse → Type 0
IsLeast best rs = All (λ r. best.cost ≤ r.cost) rs

cheapest-cons :
    (best r : DiscoveryResponse) (rs : List DiscoveryResponse)
    → cheapest (if ltb r.cost best.cost then r else best) rs ≡ cheapest best (r ∷ rs)
unfolding cheapest
cheapest-cons best r rs = refl

cheapest-nil : (best : DiscoveryResponse) → best ≡ cheapest best []
unfolding cheapest
cheapest-nil best = refl

cheapest-IsLeast :
    (best : DiscoveryResponse) (rs : List DiscoveryResponse)
    → IsLeast (cheapest best rs) (best ∷ rs)
cheapest-IsLeast best [] = subst (λ m. IsLeast m (best ∷ [])) (cheapest-nil best) (omega arith, tt)
cheapest-IsLeast best (r ∷ rs) =
    subst (λ m. IsLeast m (best ∷ r ∷ rs)) (cheapest-cons best r rs)
      (if_keeps (λ b. IsLeast (cheapest b rs) (best ∷ r ∷ rs)) (ltb r.cost best.cost) r best
        (λ t. let h = cheapest-IsLeast r rs in (omega (arith, h.0, ltb→lt r.cost best.cost t), h))
        (λ f.
          let h = cheapest-IsLeast best rs in
          let ge : best.cost ≤ r.cost = ground arith in (h.0, (omega (arith, h.0, ge), h.1))))

-- After one or more responses to a new entry, the first of them has settled `firstResponse`, and
-- the response that the entry holds is the first one of the cheapest: none of them costs less.
pub handle_all-cheapest :
    (first : DiscoveryResponse) (rs : List DiscoveryResponse)
    → (handle_all (first ∷ rs) new_entry ≡ entry_with first (cheapest first rs))
      × IsLeast (cheapest first rs) (first ∷ rs)
unfolding handle_all new_entry handle_response resolve
handle_all-cheapest first rs = (holds-cheapest first first rs, cheapest-IsLeast first rs)
