-- ===== src/Tests.antt =====
-- Sample data for the concrete runs of the theorems: toy primitives, a relay, a chain and a store.
pub mod Evidence
pub mod Expiries
pub mod Requests
pub mod Parsing
pub mod Payloads
pub mod Batches
pub mod Deletions
pub mod Readings
pub mod Routes
pub mod Starts
pub mod Candidates
pub mod Rows
use palla_sync.Prelude.{
  ℕ, ◌+◌, ◌-◌, ◌*◌, ◌/◌, Bool, true, false, Option, none, some, List, [], ◌∷◌, String, length, ltb,
  if◌then◌else◌, ◌==◌, nat_eq, text_eq,
}
use palla_sync.Decimal.{to_string}
use palla_sync.Json.{Value, null, num, str, object, n}
use palla_sync.Crypto.Primitives.{External}
use palla_sync.Db.{Chain, Db, World}
use palla_sync.Config.{RelayConfig}
use palla_sync.Store.Hashes.{initial_hash, log_context, transparency_context}

abbrev pub zeros : ℕ → List ℕ
zeros ℕ.zero = []
zeros (ℕ.suc k) = 0 ∷ zeros k

-- Bytes are written as their number.
abbrev written : ℕ → String
written k =
    if k == 32
    then "key"
    else if k == 64
    then "sig"
    else if k == 16
    then "nonce"
    else if k == 1
    then "token"
    else to_string k

abbrev read_back : String → Option (List ℕ)
read_back t =
    if t == "key"
    then some (zeros 32)
    else if t == "sig"
    then some (zeros 64)
    else if t == "nonce"
    then some (zeros 16)
    else if t == "token"
    then some (zeros 1)
    else none

-- An object is written as many bytes as its member "v" says, less two.
abbrev pub sample : External
sample = record {
  canonicalize_json = λ v. zeros (n v "v" - 2);
  sha256 = λ b. b;
  encode = λ b. written (length b);
  decode_base64 = read_back;
  decompress = λ b. some (record { compressed = b; is_identity = false; is_torsion_free = true });
  mul_clamped = λ b c. b;
  scalar_is_canonical = λ b. true;
  verifying_key_is_valid = λ b. true;
  verify_strict = λ a t m. true;
  sign = λ k m. zeros 64;
  verifying_key = λ k. zeros 32;
  parse_uuid = λ t. none;
  is_nfc = λ t. true;
  is_utf8 = λ b. true;
  read_json = λ b. none;
}

abbrev pub relay : RelayConfig
relay = record {
  key = zeros 32;
  origin = "https://relay.example";
  key_id = "key";
  privacy = object (
      (
        "rate_limits",
        object (
            (
              "authorized_signer",
              object (("burst", num 5) ∷ ("requests_per_minute", num 60000) ∷ []),
            )
            ∷ []),
      )
      ∷ []);
  max_bytes = some 100000;
  shutdown_at_ms = none;
  migration_origin = none;
  stop_writes = false;
}

abbrev pub empty_db : Db
empty_db = record {
  chains = [];
  objects = [];
  registry = [];
  log = [];
  receipts = [];
  transparency = [];
  heads = [];
  nonces = [];
  outcomes = [];
  offers = [];
  cursors = [];
  deletions = [];
  delete_versions = [];
  imports = [];
  payload_nonces = [];
  handoffs = [];
  restart_barrier = 0;
  operator = none;
  rates = [];
  notices = [];
  registry_history = [];
}

abbrev pub world : World
world = record { db = empty_db; time = λ i. 1500; reads = 0; fresh_id = λ i. "id"; drawn = 0 }

abbrev pub chain : Chain
chain = record {
  chain_id = "key";
  parameters = object (("generation", num 0) ∷ []);
  epoch = object (("epoch", num 0) ∷ []);
  log_id = "log";
  head_seq = 0;
  head_hash = initial_hash ⦃x = sample⦄ log_context "key" "log" none;
  min_available_seq = 1;
  boundary_compaction_id = none;
  transparency_id = "transparency";
  transparency_index = 0;
  transparency_hash =
      initial_hash ⦃x = sample⦄ transparency_context "key" "transparency" (some "key");
  writable = true;
  notice_id = "notice";
}

abbrev pub note : ℕ → Value
note k = object (("record_id", str "r1") ∷ ("v", num k) ∷ [])
