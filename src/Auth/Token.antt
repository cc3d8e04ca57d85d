-- ===== src/Auth/Token.antt =====
-- The capability token of a request, and its checks that need no store (`authenticate` of
-- src/api/auth.rs).
use palla_sync.Prelude.{
  ℕ, ◌+◌, ◌-◌, not, ◌||◌, Option, none, some, List, [], ◌∷◌, String, ◌==◌, ◌/=◌, ltb, leb, nat_eq,
  text_eq, bool_eq, pair_eq, option_eq, if◌then◌else◌,
}
use palla_sync.Json.{Value, num, object, ◌!◌, is_null, as_str, s, n}
use Prim.Native.Char.{code}
use palla_sync.Error.{
  ◌>>=◌, ◌>>◌, Result, ok, err, throw, with_context, failed, reject_if, ok_or, or_code,
  token_required, token_signature_invalid, token_binding_mismatch, token_ttl_too_long,
  token_not_yet_valid, token_expired,
}
use palla_sync.Crypto.Primitives.{External}
use palla_sync.Crypto.{codes, decode, hash_bytes}
use palla_sync.Crypto.Jcs.{parse}
use palla_sync.Config.{RelayConfig}
use palla_sync.Wire.Types.{Schema, int, string, bytes, one_of, optional, uuid}
use palla_sync.Wire.Signed.{signed}
use palla_sync.Wire.Query.{Bytes, bytes_beq, canonical_query, join_pairs}

-- A header that is there may still not be text.
pub record AuthRequest : Type 0 where
  pub authorization : Option (Option String)
  pub method : String
  pub path : String
  pub query : Option Bytes
  pub body : List ℕ
  pub chain_id : String
  pub proposed_key : Option String
  pub route : String

abbrev strip : List ℕ → String → Option String
strip [] t = some t
strip (p ∷ ps) String.[] = none
strip (p ∷ ps) (String.◌∷◌ c t) = if code c == p then strip ps t else none

abbrev token_fields : Schema
token_fields =
    ("v", int)
    ∷ ("aud", string)
    ∷ ("chain_id", bytes 32)
    ∷ ("signer_kind", one_of ("device" ∷ "admin" ∷ []))
    ∷ ("device_id", optional uuid)
    ∷ ("method", string)
    ∷ ("path", string)
    ∷ ("query", string)
    ∷ ("body_sha256", bytes 32)
    ∷ ("issued_at_ms", int)
    ∷ ("expires_at_ms", int)
    ∷ ("nonce", bytes 16)
    ∷ []

abbrev pub device_of : Value → Option String
device_of token = as_str (token ! "device_id")

abbrev pub or_empty : Option String → String
or_empty none = ""
or_empty (some t) = t

abbrev query_bytes : Option Bytes → Bytes
query_bytes none = []
query_bytes (some q) = q

-- The time window of the token at time `t`, with a minute of grace on both sides.
unfoldable pub check_times : Value → ℕ → Result (Unit {0})
check_times token t =
    let issued = n token "issued_at_ms" in
    let expires = n token "expires_at_ms" in
    if leb expires issued
    then throw token_signature_invalid
    else if ltb 300000 (expires - issued)
    then throw token_ttl_too_long
    else if ltb (t + 60000) issued
    then err (
        with_context (failed token_not_yet_valid)
          (object (("retry_after_ms", num (issued - t - 60000)) ∷ [])))
    else if ltb (expires + 60000) t
    then throw token_expired
    else ok tt

abbrev pub NonceKey : Type 0
NonceKey = String × (String × (String × String))

abbrev pub nonce_key : String → Value → NonceKey
nonce_key c token = (c, (s token "signer_kind", (or_empty (device_of token), s token "nonce")))

module _ ⦃x : External⦄ where
  abbrev parse_token : List ℕ → Result Value
  parse_token raw = ok_or (parse raw) token_signature_invalid

  -- The token of the header, written in JCS, with the members that it must have.
  unfoldable pub token_of : AuthRequest → Result Value
  token_of r = do
    header ← ok_or r.authorization token_required
    text ← ok_or header token_signature_invalid
    raw ← ok_or (strip (codes "PallaSync ") text) token_required
    token_bytes ← ok_or (decode raw none) token_signature_invalid
    token ← parse_token token_bytes
    or_code (signed token token_fields) token_signature_invalid
    reject_if
        (not (bytes_beq token_bytes (x.canonicalize_json token))
          || n token "v" /= 3
          || (s token "signer_kind" == "admin") /= is_null (token ! "device_id"))
        token_signature_invalid
    ok token

  -- The token is bound to the relay, the chain and the request.
  unfoldable pub check_binding : RelayConfig → AuthRequest → Value → Result (Unit {0})
  check_binding cfg r token = do
    q ← canonical_query (query_bytes r.query)
    reject_if
        (s token "aud" /= cfg.origin
          || s token "chain_id" /= r.chain_id
          || s token "method" /= r.method
          || s token "path" /= r.path
          || not (bytes_beq (codes (s token "query")) (join_pairs q))
          || s token "body_sha256" /= hash_bytes r.body)
        token_binding_mismatch
