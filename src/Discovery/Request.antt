-- ===== src/Discovery/Request.antt =====
-- ts-core/src/net/discovery/request.ts: DiscoveryRequestEntry. Gateways and costs are numbers.
use heterogeneous_network.Base.{ℕ, List, [], ◌∷◌, Option, none, some, ltb, if◌then◌else◌}
use heterogeneous_network.Deferred.{Status, pending, resolve}

pub record DiscoveryResponse : Type 0 where
  pub gateway_id : ℕ
  pub cost : ℕ

pub record DiscoveryRequestEntry : Type 0 where
  pub response : Option DiscoveryResponse
  -- The store of promises whose element 0 is `#firstResponse`.
  pub promises : List (Status DiscoveryResponse)

unfoldable pub new_entry : DiscoveryRequestEntry
new_entry = record { response = none; promises = pending ∷ [] }

abbrev take_response : DiscoveryResponse → DiscoveryRequestEntry → DiscoveryRequestEntry
take_response response entry = record {
  response = some response;
  promises = resolve 0 response entry.promises;
}

abbrev handle :
    Option DiscoveryResponse → DiscoveryResponse → DiscoveryRequestEntry → DiscoveryRequestEntry
handle none response entry = take_response response entry
handle (some old) response entry =
    if ltb response.cost old.cost then take_response response entry else entry

-- `handleResponse`: the better response of two is the one with the lower cost.
unfoldable pub handle_response : DiscoveryResponse → DiscoveryRequestEntry → DiscoveryRequestEntry
handle_response response entry = handle entry.response response entry
