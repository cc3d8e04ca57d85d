-- ===== src/Wire/Signed.antt =====
-- Signed objects of src/api/wire.rs: the ban on recovery objects, the fields, and the names and the
-- size of extensions.
use palla_sync.Prelude.{
  ℕ, Bool, true, false, not, ◌&&◌, ◌||◌, Option, none, some, List, [], ◌∷◌, ◌++◌, ◌==◌, ◌/=◌,
  nat_eq, text_eq, bool_eq, ltb, leb, if◌then◌else◌, String, length, all, is_empty,
}
use Prim.Native.String.{len}
use palla_sync.Json.{Value, obj, entries, lookup, ◌!◌, is_null, s}
use palla_sync.Error.{Result, ok, throw, ◌>>◌, reject_if, invalid_field, object_signature_invalid}
use palla_sync.Crypto.Primitives.{External}
use palla_sync.Crypto.{codes, verify_signed_json}
use palla_sync.Wire.Types.{Schema, bytes, object, fields}
use palla_sync.Wire.Artifacts.{reject_local_artifacts}

abbrev is_lower : ℕ → Bool
is_lower b = leb b'a' b && leb b b'z'

abbrev is_digit : ℕ → Bool
is_digit b = leb b'0' b && leb b b'9'

-- `str::split('.')`: the label before the first dot, and the labels behind it.
pub split_dots : List ℕ → List ℕ × List (List ℕ)
split_dots [] = ([], [])
split_dots (b ∷ bs) =
    let (label, labels) = split_dots bs in
    if b == b'.' then ([], label ∷ labels) else (b ∷ label, labels)

abbrev pub labels_of : List ℕ → List (List ℕ)
labels_of bs = let (label, labels) = split_dots bs in label ∷ labels

abbrev ends_with_dash : List ℕ → Bool
ends_with_dash [] = false
ends_with_dash (b ∷ []) = b == b'-'
ends_with_dash (b ∷ bs) = ends_with_dash bs

abbrev starts_lower : List ℕ → Bool
starts_lower [] = false
starts_lower (b ∷ bs) = is_lower b

-- A label of an extension's name; the last may have underscores, the others dashes.
unfoldable pub valid_label : Bool → List ℕ → Bool
valid_label last label =
    not (is_empty label)
    && leb (length label) (if last then 64 else 63)
    && starts_lower label
    && not (ends_with_dash label)
    && all (λ b. is_lower b || is_digit b || (b == (if last then b'_' else b'-'))) label

unfoldable pub valid_labels : List (List ℕ) → Bool
unfolding valid_label
valid_labels [] = true
valid_labels (label ∷ labels) = valid_label (is_empty labels) label && valid_labels labels

-- The bytes of a label of ASCII are its characters; a label with any other character is refused.
unfoldable pub valid_extension_name : String → Bool
unfolding split_dots valid_labels
valid_extension_name key =
    let labels = labels_of (codes key) in
    leb 3 (length labels) && leb (len key) 255 && valid_labels labels

valid_names : List (String × Value) → Bool
unfolding valid_extension_name
valid_names [] = true
valid_names ((k, v) ∷ ms) = valid_extension_name k && valid_names ms

abbrev member_list : Value → List (String × Value)
member_list (obj ms) = entries ms
member_list v = []

module _ ⦃x : External⦄ where
  check_extension : Option Value → Result (Unit {0})
  unfolding valid_names
  check_extension none = ok tt
  check_extension (some ext) =
      if ltb 1024 (length (x.canonicalize_json ext))
      then throw invalid_field
      else reject_if (not (valid_names (member_list ext))) invalid_field

  unfoldable pub signed : Value → Schema → Result (Unit {0})
  unfolding check_extension
  signed v required = do
    reject_local_artifacts v
    fields v (required ++ ("signature", bytes 64) ∷ []) (("ext", object) ∷ [])
    check_extension (lookup v "ext")

  -- An admin signs without a device id, a device with one.
  unfoldable pub signer : Value → Result (Unit {0})
  signer v =
      reject_if ((s v "signer_kind" == "admin") /= is_null (v ! "signer_device_id")) invalid_field

  abbrev pub holds : Option Bool → Bool
  holds (some true) = true
  holds _ = false

  unfoldable pub verify : Value → String → List ℕ → Result (Unit {0})
  verify v key context =
      reject_if (not (holds (verify_signed_json key (s v "signature") v context)))
        object_signature_invalid
