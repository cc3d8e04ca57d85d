-- ===== src/Tests/Requests.antt =====
-- A concrete run of the theorem on capability tokens (src/api/auth.rs).
use palla_sync.Routing.Endpoint.{head}
use palla_sync.Routing.Answer.{Response, answer, transact, settle}
use palla_sync.Routing.Audit.{audit_request, candidates, members_of, elements_of}
use palla_sync.Batch.{attempt}
use palla_sync.Db.Action.{Action, transaction, modify, fail, ◌>>◌}
use palla_sync.Decimal.{to_string}
use palla_sync.Prelude.{
  ◌+◌, ◌-◌, ◌*◌, ◌/◌, none, some, List, [], ◌∷◌, String, ◌≡◌, refl, ltb, if◌then◌else◌, all,
  find_row, delete_rows, upsert, contains, any, true, select,
}
use palla_sync.Json.Raw.{Raw, RawMembers, closed, entry, text, unsigned, unit, map}
use palla_sync.Error.{ok, Result, chain_not_found, err, failed}
use palla_sync.Crypto.Primitives.{External}
use palla_sync.Db.{World}
use palla_sync.Auth.{Auth}
use palla_sync.Auth.Rate.{Floats, rate, tokens_at}
use palla_sync.Auth.Token.{AuthRequest, token_of, check_binding, check_times}
use palla_sync.Auth.Authenticate.{
  authenticate, authenticate_at, check_token, authority, check_barrier, reserve_nonce, admit,
  check_signer,
}
use native.Mathlib.Nat.{le_refl}
use palla_sync.Wire.Query.{bytes_beq}
use palla_sync.Auth.Replay.Later.{same, authenticate-once}
use palla_sync.Tests.{sample, relay, world, zeros}
use palla_sync.Crypto.{
  decode, in_alphabet, object_hash, hash_bytes, verify_signed_json, verify_signature, prime_point,
  signing_bytes,
}
use palla_sync.Crypto.Jcs.{parse, strict, scan, skip_digits}
use palla_sync.Wire.Signed.{signed}
use palla_sync.Wire.Artifacts.{
  reject_local_artifacts, find_artifact, is_artifact, size, push_items, push_values,
}
use palla_sync.Wire.Types.{fields, check_type}
use palla_sync.Wire.Query.{canonical_query, join_pairs}
use palla_sync.Json.{remove, insert, object, s, n, ◌!◌, lookup, get, Value, a}
use palla_sync.Batch.Rollback.{IsAudited}
use palla_sync.Routing.Refused.{answer-IsAudited}

abbrev members : List (String × Raw) → RawMembers
members [] = closed
members ((k, v) ∷ l) = entry k v (members l)

abbrev token : Raw
token = map (
    members (
      ("v", unsigned 3)
      ∷ ("aud", text "https://relay.example")
      ∷ ("chain_id", text "key")
      ∷ ("signer_kind", text "admin")
      ∷ ("device_id", unit)
      ∷ ("method", text "GET")
      ∷ ("path", text "/")
      ∷ ("query", text "")
      ∷ ("body_sha256", text "key")
      ∷ ("issued_at_ms", unsigned 1000)
      ∷ ("expires_at_ms", unsigned 2000)
      ∷ ("nonce", text "nonce")
      ∷ ("signature", text "sig")
      ∷ []))

abbrev reading : External
reading = record sample { read_json = λ b. some token }

abbrev floats : Floats
floats = record {
  of_u64 = λ i. i;
  add = λ i j. i + j;
  sub = λ i j. i - j;
  mul = λ i j. i * j;
  div = λ i j. i / j;
  min = λ i j. if ltb i j then i else j;
  less = ltb;
  ceil_u64 = λ i. i;
}

abbrev request : AuthRequest
request = record {
  authorization = some (some "PallaSync token");
  method = "GET";
  path = "/";
  query = none;
  body = zeros 32;
  chain_id = "key";
  proposed_key = some "key";
  route = "genesis";
}

abbrev admitted : World
admitted = (authenticate ⦃x = reading⦄ ⦃f = floats⦄ relay request world).1

first_request :
    (auth : Auth) × (authenticate ⦃x = reading⦄ ⦃f = floats⦄ relay request world
      ≡ (ok auth, admitted))
unfolding authenticate token_of check_binding authenticate_at check_token check_times authority
    check_barrier reserve_nonce admit check_signer rate tokens_at decode all in_alphabet parse
    strict scan skip_digits signed reject_local_artifacts find_artifact is_artifact size push_items
    push_values fields check_type canonical_query object_hash hash_bytes verify_signed_json
    verify_signature prime_point signing_bytes remove insert object find_row delete_rows upsert s n
    ◌!◌ lookup get contains any to_string join_pairs bytes_beq
first_request = (_, refl)

authenticate-once_example : ¬ (
    authenticate ⦃x = reading⦄ ⦃f = floats⦄ relay request admitted ≡ (ok first_request.0, admitted))
authenticate-once_example =
    authenticate-once ⦃x = reading⦄ ⦃f = floats⦄ relay request request world admitted admitted
      admitted first_request.0 first_request.0 (λ i j h. le_refl 1500) refl first_request.1 same

-- An operation that writes and fails.
abbrev failing : Auth → Value → Action Response
failing auth v = modify (λ db. record db { imports = "key" ∷ db.imports }) >> fail chain_not_found

abbrev answered : Result Response × World
answered =
    answer ⦃x = reading⦄ ⦃f = floats⦄ relay request true head [] (ok (object [])) true failing world

refused : answered ≡ (err (failed chain_not_found), answered.1)
unfolding answer transact settle attempt transaction audit_request candidates members_of elements_of
    authenticate token_of check_binding authenticate_at check_token check_times authority
    check_barrier reserve_nonce admit check_signer rate tokens_at decode all in_alphabet parse
    strict scan skip_digits signed reject_local_artifacts find_artifact is_artifact size push_items
    push_values fields check_type canonical_query object_hash hash_bytes verify_signed_json
    verify_signature prime_point signing_bytes remove insert object find_row delete_rows upsert s n
    ◌!◌ lookup get contains any to_string join_pairs bytes_beq a select
refused = refl

answer-IsAudited_example : IsAudited admitted.db answered.1.db
answer-IsAudited_example =
    answer-IsAudited ⦃x = reading⦄ ⦃f = floats⦄ relay request true head [] (ok (object [])) true
      failing world answered.1 (failed chain_not_found) refused
