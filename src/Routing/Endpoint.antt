-- ===== src/Routing/Endpoint.antt =====
-- The catalogue of endpoints (`endpoint` of src/api/sync.rs).
pub mod Methods
pub mod Served
use Prim.Native.Char.{code}
use palla_sync.Prelude.{
  String, Option, List, some, ℕ, contains, if◌then◌else◌, [], none, ◌∷◌, ◌==◌, text_eq, ◌&&◌, ◌/=◌,
  is_none, not, nat_eq,
}
use palla_sync.Crypto.Primitives.{External}
use palla_sync.Error.{Result, throw, ok, endpoint_not_found, invalid_field, method_not_allowed, err}
use palla_sync.Read.{decimal}
use palla_sync.Crypto.Jcs.{max_integer}
use palla_sync.Crypto.{decode}
use palla_sync.Wire.Types.{is_uuid}
use palla_sync.Decimal.{to_string}

pub data Route : Type 0 where
  health genesis import delete reseed parameters_get enroll devices revoke : Route
  own_envelopes ack records_post records_get repair offer request requests_get approve : Route
  reject epochs_post epochs_get epoch_get recovery envelopes_post log head prune : Route
  snapshot snapshots_get parts_post part_get snapshot_get export notice deletion : Route
  receipt transparency_head transparency : Route

pub record Endpoint : Type 0 where
  pub route : Route
  pub chain : String
  pub param : String
  pub allow : List String

-- `split('/')`: the piece before the first slash, and the pieces behind it.
unfoldable pub split_path : String → String × List String
split_path String.[] = ("", [])
split_path (String.◌∷◌ c t) =
    let (piece, pieces) = split_path t in
    if code c == b'/' then ("", piece ∷ pieces) else (String.◌∷◌ c piece, pieces)

-- `strip_prefix`
unfoldable pub strip_prefix : String → String → Option String
strip_prefix String.[] t = some t
strip_prefix (String.◌∷◌ p ps) String.[] = none
strip_prefix (String.◌∷◌ p ps) (String.◌∷◌ c t) =
    let rest = strip_prefix ps t in if code p == code c then rest else none

abbrev get_only : Route → String → String → Option Endpoint
get_only r c p = some (record { route = r; chain = c; param = p; allow = "GET" ∷ [] })

abbrev post_only : Route → String → String → Option Endpoint
post_only r c p = some (record { route = r; chain = c; param = p; allow = "POST" ∷ [] })

-- One route for a method, and another for GET.
abbrev get_or : String → Route → Route → String → String → Option Endpoint
get_or other changing reading method c = some (record {
  route = if method == other then changing else reading;
  chain = c;
  param = "";
  allow = "GET" ∷ other ∷ [];
})

abbrev delete_only : String → Option Endpoint
delete_only c = some (record { route = delete; chain = c; param = ""; allow = "DELETE" ∷ [] })

unfoldable pub route_one : String → Option Endpoint
route_one p =
    if p == "health"
    then get_only health "" ""
    else if p == "chains"
    then post_only genesis "" ""
    else none

-- /chains/{c}/{p}
unfoldable pub route_chain : String → String → String → Option Endpoint
route_chain method c p =
    if p == "parameters"
    then get_or "PUT" reseed parameters_get method c
    else if p == "devices"
    then get_only devices c ""
    else if p == "records"
    then get_or "POST" records_post records_get method c
    else if p == "enrollment-offers"
    then post_only offer c ""
    else if p == "enrollment-requests"
    then get_or "POST" request requests_get method c
    else if p == "epochs"
    then get_or "POST" epochs_post epochs_get method c
    else if p == "log"
    then get_only log c ""
    else if p == "snapshots"
    then get_or "POST" snapshot snapshots_get method c
    else if p == "export"
    then get_only export c ""
    else if p == "relay-notice"
    then get_only notice c ""
    else if p == "deletion"
    then get_only deletion c ""
    else none

-- /chains/{c}/{p}/{q}
unfoldable pub route_item : String → String → String → Option Endpoint
route_item c p q =
    if (p == "devices") && (q == "enroll")
    then post_only enroll c ""
    else if (p == "records") && (q == "repair")
    then post_only repair c ""
    else if p == "epochs"
    then get_only epoch_get c q
    else if (p == "log") && (q == "head")
    then get_only head c ""
    else if (p == "log") && (q == "prune")
    then post_only prune c ""
    else if (p == "snapshots") && (q == "parts")
    then post_only parts_post c ""
    else if p == "snapshots"
    then get_only snapshot_get c q
    else if p == "receipts"
    then get_only receipt c q
    else if (p == "transparency") && (q == "head")
    then get_only transparency_head c ""
    else if (p == "transparency") && (q == "entries")
    then get_only transparency c ""
    else none

-- /chains/{c}/{p}/{q}/{r}
unfoldable pub route_part : String → String → String → String → Option Endpoint
route_part c p q r =
    if (p == "devices") && (r == "revoke")
    then post_only revoke c q
    else if (p == "devices") && (r == "envelopes")
    then get_only own_envelopes c q
    else if (p == "enrollment-requests") && (r == "approve")
    then post_only approve c q
    else if (p == "enrollment-requests") && (r == "reject")
    then post_only reject c q
    else if (p == "epochs") && (r == "recovery-envelope")
    then get_only recovery c q
    else if (p == "epochs") && (r == "envelopes")
    then post_only envelopes_post c q
    else if (p == "snapshots") && (q == "parts")
    then get_only part_get c r
    else none

-- What stands behind /chains.
unfoldable pub route_under : String → String → List String → Option Endpoint
unfolding route_chain route_item route_part
route_under method c [] = if c == "import" then post_only import "" "" else delete_only c
route_under method c (p ∷ []) = route_chain method c p
route_under method c (p ∷ q ∷ []) = route_item c p q
route_under method c (p ∷ q ∷ r ∷ []) = route_part c p q r
route_under method c (p ∷ q ∷ r ∷ t ∷ []) =
    if (p == "devices") && (r == "keys") && (t == "ack") then post_only ack c q else none
route_under method c (p ∷ q ∷ r ∷ t ∷ u ∷ rest) = none

unfoldable pub route_of : String → String × List String → Option Endpoint
unfolding route_one route_under
route_of method (p, []) = route_one p
route_of method (p, c ∷ rest) = if p == "chains" then route_under method c rest else none

-- The routes whose parameter is a number, with its bounds.
abbrev pub number_range : Route → Option (ℕ × ℕ)
number_range epoch_get = some (0, 4294967295)
number_range recovery = some (0, 4294967295)
number_range envelopes_post = some (0, 4294967295)
number_range receipt = some (1, max_integer)
number_range r = none

module _ ⦃x : External⦄ where
  -- A number is written anew, without leading zeros.
  abbrev pub check_param : Option (ℕ × ℕ) → Endpoint → Result Endpoint
  check_param none e = if is_uuid e.param then ok e else throw invalid_field
  check_param (some (min, max)) e = elim (decimal e.param min max) [
    | ok k ↦ ok (record e { param = to_string k })
    | err f ↦ err f
  ]

  unfoldable pub check_endpoint : Endpoint → Result Endpoint
  unfolding decimal decode
  check_endpoint e =
      if (e.chain /= "") && is_none (decode e.chain (some 32))
      then throw invalid_field
      else if e.param == ""
      then ok e
      else check_param (number_range e.route) e

  abbrev pub check_method : String → Option Endpoint → Result Endpoint
  check_method method none = throw endpoint_not_found
  check_method method (some e) =
      if not (contains e.allow method) then throw method_not_allowed else check_endpoint e

  -- `endpoint`
  unfoldable pub endpoint : String → String → Result Endpoint
  unfolding route_of split_path strip_prefix check_endpoint contains
  endpoint path method = elim (strip_prefix "/pallasync/v3/" path) [
    | none ↦ throw endpoint_not_found
    | some rest ↦ check_method method (route_of method (split_path rest))
  ]
