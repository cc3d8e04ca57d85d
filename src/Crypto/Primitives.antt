-- ===== src/Crypto/Primitives.antt =====
-- What src/crypto and src/api call of other packages: serde_jcs and serde_json, SHA-256, Base64,
-- Ed25519 and X25519, UUID and Unicode.
use palla_sync.Prelude.{ℕ, Bool, Option, List, String}
use palla_sync.Json.{Value}
use palla_sync.Json.Raw.{Raw}

-- What the library tells of a decompressed Edwards point.
pub record EdwardsPoint : Type 0 where
  pub compressed : List ℕ
  pub is_identity : Bool
  pub is_torsion_free : Bool

-- What the library tells of a parsed UUID.
pub record Uuid : Type 0 where
  pub version : ℕ
  pub is_rfc4122 : Bool
  pub bytes : List ℕ
  pub display : String

pub record External : Type 0 where
  -- serde_jcs::to_vec, Sha256::digest
  pub canonicalize_json : Value → List ℕ
  pub sha256 : List ℕ → List ℕ
  -- URL_SAFE_NO_PAD
  pub encode : List ℕ → String
  pub decode_base64 : String → Option (List ℕ)
  -- curve25519_dalek and ed25519_dalek
  pub decompress : List ℕ → Option EdwardsPoint
  pub mul_clamped : List ℕ → List ℕ → List ℕ
  pub scalar_is_canonical : List ℕ → Bool
  pub verifying_key_is_valid : List ℕ → Bool
  pub verify_strict : List ℕ → List ℕ → List ℕ → Bool
  pub sign : List ℕ → List ℕ → List ℕ
  pub verifying_key : List ℕ → List ℕ
  -- uuid::Uuid::parse_str, unicode_normalization
  pub parse_uuid : String → Option Uuid
  pub is_nfc : String → Bool
  -- str::from_utf8, serde_json::from_str up to the visitor
  pub is_utf8 : List ℕ → Bool
  pub read_json : List ℕ → Option Raw
