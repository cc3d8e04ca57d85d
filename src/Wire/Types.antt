-- ===== src/Wire/Types.antt =====
-- Field types and objects with fixed fields (src/api/wire.rs). The source writes a type as a text: a
-- suffix `?` is `optional`, a suffix `[]` is `each`, `b16` to `b64` are `bytes`, and alternatives
-- between `|` are `one_of`.
use palla_sync.Prelude.{
  is_some, ℕ, ◌-◌, ◌^◌, Bool, true, false, not, ◌&&◌, ◌||◌, Option, none, some, List, [], ◌∷◌, ◌++◌,
  ◌==◌, nat_eq, text_eq, leb, if◌then◌else◌, String, all, any, contains,
}
use palla_sync.Json.{Value, Members, bool, num, str, arr, obj, end, member, get, to_list, is_null}
use palla_sync.Error.{Result, ok, throw, ◌>>◌, invalid_field}
use palla_sync.Crypto.Primitives.{External}
use palla_sync.Crypto.{codes, decode}
use palla_sync.Crypto.Jcs.{max_integer}

pub data FieldType : Type 0 where
  optional each : FieldType → FieldType
  string uuid u32 int boolean object array version_3 : FieldType
  bytes : ℕ → FieldType
  one_of : List String → FieldType

abbrev pub Schema : Type 0
Schema = List (String × FieldType)

abbrev u32_max : ℕ
u32_max = 2 ^ 32 - 1

module _ ⦃x : External⦄ where
  -- `id`: no NUL, and in Unicode normal form C
  pub is_id : String → Bool
  is_id v = not (any (λ c. c == 0) (codes v)) && x.is_nfc v

  pub is_uuid : String → Bool
  is_uuid v = elim (x.parse_uuid v) [
    | none ↦ false
    | some u ↦ u.version == 4 && u.is_rfc4122 && u.display == v
  ]

  -- `check_type` of a type with no suffix
  pub check_plain : FieldType → Value → Bool
  unfolding is_id is_uuid
  check_plain string (str t) = is_id t
  check_plain uuid (str t) = is_uuid t
  check_plain u32 (num n) = leb n u32_max
  check_plain int (num n) = leb n max_integer
  check_plain boolean (bool b) = true
  check_plain object (obj ms) = true
  check_plain array (arr vs) = true
  check_plain version_3 (str t) = t == "3.0"
  check_plain (bytes k) (str t) = is_some (decode t (some k))
  check_plain (one_of ts) (str t) = contains ts t
  check_plain _ _ = false

  abbrev check_each : (Value → Bool) → Value → Bool
  check_each check (arr vs) = all check (to_list vs)
  check_each check _ = false

  unfoldable pub check_type : FieldType → Value → Bool
  unfolding check_plain
  check_type (optional t) v = is_null v || check_type t v
  check_type (each t) v = check_each (check_type t) v
  check_type t v = check_plain t v

  pub field_type : String → Schema → Option FieldType
  field_type k [] = none
  field_type k ((j, t) ∷ ts) = if j == k then some t else field_type k ts

  abbrev has_type : FieldType → Option Value → Bool
  has_type t none = false
  has_type t (some v) = check_type t v

  abbrev declared : Option FieldType → Value → Bool
  declared none v = false
  declared (some t) v = check_type t v

  -- The first loop of `fields`: each required field is there, with its type.
  pub required_fields : Schema → Members → Result (Unit {0})
  required_fields [] o = ok tt
  required_fields ((k, t) ∷ ts) o =
      if has_type t (get k o) then required_fields ts o else throw invalid_field

  -- The second loop: each member of the object is declared, with its type.
  pub declared_fields : Schema → Members → Result (Unit {0})
  unfolding field_type
  declared_fields ts end = ok tt
  declared_fields ts (member k v ms) =
      if declared (field_type k ts) v then declared_fields ts ms else throw invalid_field

  unfoldable pub fields : Value → Schema → Schema → Result (Unit {0})
  unfolding required_fields declared_fields
  fields (obj o) required optionals =
      required_fields required o >> declared_fields (required ++ optionals) o
  fields v required optionals = throw invalid_field
