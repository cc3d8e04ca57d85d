-- ===== src/Store/Hashes.antt =====
-- The chain's state and the hashes that link its logs (src/api/store.rs).
use palla_sync.Prelude.{ℕ, ◌/◌, ◌%◌, ◌^◌, true, Option, none, some, List, [], ◌∷◌, ◌++◌, String}
use palla_sync.Json.{Value, num, str, object, s, n}
use palla_sync.Crypto.Primitives.{External}
use palla_sync.Crypto.{codes, decode, hash_bytes, object_hash}
use palla_sync.Db.{Chain}
use palla_sync.Db.Action.{Action, ◌>>=◌, pure, new_id}
use palla_sync.Config.{RelayConfig}

-- `unwrap` on bytes that are known to decode; the empty list stands for the panic.
abbrev pub unwrap_bytes : Option (List ℕ) → List ℕ
unwrap_bytes none = []
unwrap_bytes (some b) = b

-- `u64::to_be_bytes`
abbrev pub to_be_bytes : ℕ → List ℕ
to_be_bytes i =
    i / 2 ^ 56 % 256
    ∷ i / 2 ^ 48 % 256
    ∷ i / 2 ^ 40 % 256
    ∷ i / 2 ^ 32 % 256
    ∷ i / 2 ^ 24 % 256
    ∷ i / 2 ^ 16 % 256
    ∷ i / 2 ^ 8 % 256
    ∷ i % 256
    ∷ []

abbrev pub log_context : List ℕ
log_context = codes "PALLASYNC-LOG-v3" ++ 0 ∷ []

abbrev pub transparency_context : List ℕ
transparency_context = codes "PALLASYNC-TRANSPARENCY-v3" ++ 0 ∷ []

abbrev pub transparency_link : List ℕ
transparency_link = codes "PALLASYNC-TRANSPARENCY-LINK-v3" ++ 0 ∷ []

module _ ⦃x : External⦄ where
  abbrev uuid_bytes : String → List ℕ
  uuid_bytes t = elim (x.parse_uuid t) [ none ↦ [] | some u ↦ u.bytes ]

  abbrev key_bytes : Option String → List ℕ
  key_bytes none = []
  key_bytes (some k) = unwrap_bytes (decode k (some 32))

  unfoldable pub initial_hash : List ℕ → String → String → Option String → String
  initial_hash context chain id key =
      hash_bytes
        (context ++ (unwrap_bytes (decode chain (some 32)) ++ (uuid_bytes id ++ key_bytes key)))

  -- The hash of a log up to `index`, from the hash before it and the entry.
  unfoldable pub link_hash : String → ℕ → Value → List ℕ → String
  link_hash prev index entry context = hash_bytes (
      context
      ++ (unwrap_bytes (decode prev (some 32))
          ++ (to_be_bytes index ++ unwrap_bytes (decode (object_hash entry) (some 32)))))

  -- `generation`, `parameters_hash`, `epoch_hash`
  unfoldable pub generation : Chain → ℕ
  generation c = n c.parameters "generation"

  unfoldable pub parameters_hash : Chain → String
  parameters_hash c = object_hash c.parameters

  unfoldable pub epoch_hash : Chain → String
  epoch_hash c = object_hash c.epoch

  abbrev given_or_new : Option String → Action String
  given_or_new none = new_id
  given_or_new (some id) = pure id

  -- `Chain::new`
  unfoldable pub new_chain : Value → Value → RelayConfig → Option String → Action Chain
  new_chain parameters epoch cfg given = do
    let chain_id = s parameters "chain_id"
    log_id ← given_or_new given
    transparency_id ← new_id
    notice_id ← new_id
    pure (record {
      chain_id = chain_id;
      parameters = parameters;
      epoch = epoch;
      log_id = log_id;
      head_seq = 0;
      head_hash = initial_hash log_context chain_id log_id none;
      min_available_seq = 1;
      boundary_compaction_id = none;
      transparency_id = transparency_id;
      transparency_index = 0;
      transparency_hash =
          initial_hash transparency_context chain_id transparency_id (some cfg.key_id);
      writable = true;
      notice_id = notice_id;
    })

  -- `Chain::head`
  unfoldable pub head : Chain → Value
  head c = object (
      ("log_id", str c.log_id)
      ∷ ("generation", num (generation c))
      ∷ ("head_seq", num c.head_seq)
      ∷ ("head_hash", str c.head_hash)
      ∷ ("min_available_seq", num c.min_available_seq)
      ∷ ("epoch_hash", str (epoch_hash c))
      ∷ ("parameters_hash", str (parameters_hash c))
      ∷ [])

  -- `Chain::result`
  unfoldable pub result : Chain → Value
  result c = object (
      ("parameters_hash", str (parameters_hash c))
      ∷ ("epoch_hash", str (epoch_hash c))
      ∷ ("log_id", str c.log_id)
      ∷ ("head_seq", num c.head_seq)
      ∷ ("head_hash", str c.head_hash)
      ∷ [])
