-- ===== src/Routing/Endpoint/Methods.antt =====
-- Each route of `endpoint` (src/api/sync.rs) has one method.
use palla_sync.Routing.Endpoint.{
  Route, Endpoint, route_one, health, parameters_get, devices, own_envelopes, records_get,
  requests_get, epochs_get, epoch_get, recovery, log, head, snapshots_get, part_get, snapshot_get,
  export, notice, deletion, receipt, transparency_head, transparency, delete, reseed, route_chain,
  route_item, route_part, route_under, route_of,
}
use palla_sync.Prelude.{
  [], String, Option, contains, arith, some, ==_iff, text_eq, ◌≡◌, true, ◌==◌, none, List, ◌∷◌,
  Bool, if◌then◌else◌, false,
}

-- What a route is asked for with.
abbrev pub method_of : Route → String
method_of health = "GET"
method_of parameters_get = "GET"
method_of devices = "GET"
method_of own_envelopes = "GET"
method_of records_get = "GET"
method_of requests_get = "GET"
method_of epochs_get = "GET"
method_of epoch_get = "GET"
method_of recovery = "GET"
method_of log = "GET"
method_of head = "GET"
method_of snapshots_get = "GET"
method_of part_get = "GET"
method_of snapshot_get = "GET"
method_of export = "GET"
method_of notice = "GET"
method_of deletion = "GET"
method_of receipt = "GET"
method_of transparency_head = "GET"
method_of transparency = "GET"
method_of delete = "DELETE"
method_of reseed = "PUT"
method_of r = "POST"

-- An endpoint that lets a method through has the route of this method.
abbrev pub Fits : String → Option Endpoint → Type 0
Fits method none = Unit {0}
Fits method (some e) = contains e.allow method ≡ true → (method == method_of e.route) ≡ true

module _ (method : String) where
  Fits-none : Fits method none
  Fits-none = tt

  Fits-if :
      (b : Bool) (e f : Option Endpoint)
      → Fits method e
      → Fits method f
      → Fits method (if b then e else f)
  Fits-if true e f he hf = he
  Fits-if false e f he hf = hf

  Fits-one :
      (r : Route) (c p m : String)
      → m ≡ method_of r
      → Fits method (some (record { route = r; chain = c; param = p; allow = m ∷ [] }))
  unfolding contains
  Fits-one r c p m e h =
      ground (arith, e, h, ==_iff m method, ==_iff method m, ==_iff method (method_of r))

  Fits-two :
      (other : String) (r g : Route) (c : String)
      → other ≡ method_of r
      → "GET" ≡ method_of g
      → Fits method (
          some (record {
            route = if method == other then r else g;
            chain = c;
            param = "";
            allow = "GET" ∷ other ∷ [];
          }))
  unfolding contains
  Fits-two other r g c e f h = ground (
    arith,
    e,
    f,
    h,
    ==_iff "GET" method,
    ==_iff method (method_of g),
    ==_iff method other,
    ==_iff other method,
    ==_iff method (method_of r),
  )

  ruleset fits_rules = (Fits-none, Fits-if, Fits-one, Fits-two, refl)

  route_one-Fits : (p : String) → Fits method (route_one p)
  unfolding route_one
  route_one-Fits p = search fits_rules depth 8

  route_chain-Fits : (c p : String) → Fits method (route_chain method c p)
  unfolding route_chain
  route_chain-Fits c p = search fits_rules depth 32

  route_item-Fits : (c p q : String) → Fits method (route_item c p q)
  unfolding route_item
  route_item-Fits c p q = search fits_rules depth 32

  route_part-Fits : (c p q r : String) → Fits method (route_part c p q r)
  unfolding route_part
  route_part-Fits c p q r = search fits_rules depth 32

  route_under-Fits : (c : String) (rest : List String) → Fits method (route_under method c rest)
  unfolding route_under
  route_under-Fits c [] = search fits_rules
  route_under-Fits c (p ∷ []) = route_chain-Fits c p
  route_under-Fits c (p ∷ q ∷ []) = route_item-Fits c p q
  route_under-Fits c (p ∷ q ∷ r ∷ []) = route_part-Fits c p q r
  route_under-Fits c (p ∷ q ∷ r ∷ t ∷ []) = search fits_rules
  route_under-Fits c (p ∷ q ∷ r ∷ t ∷ u ∷ rest) = tt

  pub route_of-Fits : (parts : String × List String) → Fits method (route_of method parts)
  unfolding route_of
  route_of-Fits (p, []) = route_one-Fits p
  route_of-Fits (p, c ∷ rest) =
      Fits-if (p == "chains") (route_under method c rest) none (route_under-Fits c rest) tt
