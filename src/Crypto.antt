-- ===== src/Crypto.antt =====
-- Hashes, keys and signatures (src/crypto/verify.rs). The primitives that it calls (serde_jcs,
-- SHA-256, Base64, Ed25519 and X25519, UUID and Unicode) are parameters, the fields of `External`.
pub mod Primitives
pub mod Jcs
use palla_sync.Prelude.{
  ℕ, ◌+◌, ◌-◌, ◌*◌, Bool, true, false, not, ◌&&◌, ◌||◌, Option, none, some, List, [], ◌∷◌, ◌++◌,
  ◌==◌, ◌/=◌, nat_eq, text_eq, ltb, leb, if◌then◌else◌, String, length, all, any,
}
use Prim.Native.Char.{code}
use mathlib.Core.List.{reverse}
use palla_sync.Crypto.Primitives.{External}
use palla_sync.Json.{Value, str, obj, is_object, remove, insert, set_member}

abbrev pub codes : String → List ℕ
codes String.[] = []
codes (String.◌∷◌ c t) = code c ∷ codes t

abbrev is_alphanumeric : ℕ → Bool
is_alphanumeric b =
    (leb b'0' b && leb b b'9') || (leb b'A' b && leb b b'Z') || (leb b'a' b && leb b b'z')

-- The alphabet of Base64URL. A byte of a character outside ASCII is in it no more than its code.
unfoldable pub in_alphabet : ℕ → Bool
in_alphabet b = is_alphanumeric b || b == b'-' || b == b'_'

-- `Iterator::cmp(…).is_lt()`
lex_lt : List ℕ → List ℕ → Bool
lex_lt [] [] = false
lex_lt [] (y ∷ ys) = true
lex_lt (x ∷ xs) [] = false
lex_lt (x ∷ xs) (y ∷ ys) = if ltb x y then true else if x == y then lex_lt xs ys else false

abbrev replicate : ℕ → ℕ → List ℕ
replicate ℕ.zero b = []
replicate (ℕ.suc k) b = b ∷ replicate k b

abbrev take : ℕ → List ℕ → List ℕ
take ℕ.zero bs = []
take (ℕ.suc k) [] = []
take (ℕ.suc k) (b ∷ bs) = b ∷ take k bs

abbrev drop : ℕ → List ℕ → List ℕ
drop ℕ.zero bs = bs
drop (ℕ.suc k) [] = []
drop (ℕ.suc k) (b ∷ bs) = drop k bs

-- 2^255 - 19
abbrev field_prime : List ℕ
field_prime = 237 ∷ replicate 30 255 ++ 127 ∷ []

abbrev bytes_eq : List ℕ → List ℕ → Bool
bytes_eq [] [] = true
bytes_eq [] (y ∷ ys) = false
bytes_eq (x ∷ xs) [] = false
bytes_eq (x ∷ xs) (y ∷ ys) = x == y && bytes_eq xs ys

abbrev wrong_length : Option ℕ → List ℕ → Bool
wrong_length none bytes = false
wrong_length (some n) bytes = length bytes /= n

module _ ⦃x : External⦄ where
  -- `none` stands for the error, whose text no caller reads.
  unfoldable pub decode : String → Option ℕ → Option (List ℕ)
  unfolding in_alphabet all
  decode t n = if not (all in_alphabet (codes t)) then none else elim (x.decode_base64 t) [
    | none ↦ none
    | some bytes ↦ if wrong_length n bytes || (x.encode bytes /= t) then none else some bytes
  ]

  unfoldable pub prime_point : List ℕ → Bool
  prime_point bytes = elim (x.decompress bytes) [
    | none ↦ false
    | some p ↦ bytes_eq p.compressed bytes && not p.is_identity && p.is_torsion_free
  ]

  unfoldable pub valid_ed_key : String → Bool
  unfolding decode prime_point
  valid_ed_key key = elim (decode key (some 32)) [ none ↦ false | some b ↦ prime_point b ]

  unfoldable pub valid_x_key : String → Bool
  unfolding decode lex_lt any
  valid_x_key key = elim (decode key (some 32)) [
    | none ↦ false
    | some b ↦
        if not (lex_lt (reverse b) (reverse field_prime))
        then false
        else any (λ v. v /= 0) (x.mul_clamped b (replicate 32 42))
  ]

  -- `none` stands for the error of a key or a signature that does not decode.
  unfoldable pub verify_signature : String → String → List ℕ → Option Bool
  unfolding decode prime_point
  verify_signature key sig message = elim (decode key (some 32)) [
    | none ↦ none
    | some a ↦ elim (decode sig (some 64)) [
      | none ↦ none
      | some t ↦
          if not (prime_point a)
            || not (prime_point (take 32 t))
            || not (x.scalar_is_canonical (drop 32 t))
          then some false
          else if not (x.verifying_key_is_valid a)
          then none
          else some (x.verify_strict a message t)
    ]
  ]

  -- The value is an object here; of any other the source panics.
  unfoldable pub signing_bytes : Value → List ℕ → String → List ℕ
  unfolding remove
  signing_bytes (obj ms) context key = context ++ x.canonicalize_json (obj (remove key ms))
  signing_bytes v context key = context ++ x.canonicalize_json v

  unfoldable pub verify_signed_json : String → String → Value → List ℕ → Option Bool
  unfolding verify_signature signing_bytes
  verify_signed_json key sig v context =
      if is_object v then verify_signature key sig (signing_bytes v context "signature") else none

  -- Signs an object and checks the signature before it is attached.
  unfoldable pub sign_relay : List ℕ → Value → List ℕ → Option Value
  unfolding verify_signature signing_bytes
  sign_relay key v context =
      let input = signing_bytes v context "relay_signature" in
      let sig = x.encode (x.sign key input) in
      elim (verify_signature (x.encode (x.verifying_key key)) sig input) [
        | none ↦ none
        | some false ↦ none
        | some true ↦ some (set_member v "relay_signature" (str sig))
      ]

  unfoldable pub hash_bytes : List ℕ → String
  hash_bytes bytes = x.encode (x.sha256 bytes)

  unfoldable pub object_hash : Value → String
  unfolding hash_bytes
  object_hash v = hash_bytes (x.canonicalize_json v)
