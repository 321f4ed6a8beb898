-- ===== src/Examples/Endpoints.antt =====
-- Endpoints as they are typed, and redials.
use ttyforge.Common.{codes, ℕ, ◌≤◌, ◌≡◌, refl, true, false, [], ◌∷◌}
use ttyforge.Common.Decimal.{digits_value}
use ttyforge.Bridge.Endpoint.{parse_u16, split_host_port}
use ttyforge.Bridge.Endpoint.Accepted.{Splits, split_host_port-ok}
use ttyforge.Bridge.Backoff.{connected, next_peer, next_peer-connected}

split_host_port-ok_example : Splits (codes "[::1]:23") (codes "[::1]") 23
unfolding split_host_port parse_u16 digits_value
split_host_port-ok_example = split_host_port-ok (codes "[::1]:23") (codes "[::1]") 23 refl

next_peer-connected_example :
    ((slept : ℕ) × (next_peer false (false ∷ false ∷ true ∷ []) ≡ connected 2 slept)
      × (500 ≤ slept)
      × (slept ≤ 10_000))
    × (next_peer true (false ∷ false ∷ true ∷ []) ≡ connected 2 200)
next_peer-connected_example = next_peer-connected 2 []
