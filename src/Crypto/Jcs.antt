-- ===== src/Crypto/Jcs.antt =====
-- The strict JSON parser of src/crypto/jcs.rs: the scan of the bytes that precedes serde_json, and
-- the visitor that builds the value.
pub mod Visitor
pub mod Lexical
pub mod Parse
use palla_sync.Prelude.{
  ℕ, zero, suc, ◌+◌, ◌-◌, Bool, true, false, not, ◌&&◌, ◌||◌, Option, none, some, List, [], ◌∷◌,
  ◌==◌, ◌/=◌, nat_eq, ltb, leb, if◌then◌else◌, String, length,
}
use palla_sync.Json.{
  Value, Items, Members, null, bool, num, str, arr, obj, nil, cons, end, get, insert,
}
use palla_sync.Json.Raw
use palla_sync.Json.Raw.{Raw, RawItems, RawMembers, last, item, closed, entry}
use palla_sync.Crypto.Primitives.{External}

abbrev pub max_integer : ℕ
max_integer = 9007199254740991

abbrev pub has_key : String → Members → Bool
has_key k ms = elim (get k ms) [ none ↦ false | some v ↦ true ]

abbrev with_item : Option Value → Option Items → Option Items
with_item none vs = none
with_item (some v) none = none
with_item (some v) (some vs) = some (cons v vs)

-- The visitor `V`; `none` is its error. A member's name is tested before its value is read.
unfoldable mutual
  pub strict : Raw → Option Value
  strict Raw.unit = some null
  strict (Raw.boolean b) = some (bool b)
  strict (Raw.unsigned v) = if ltb max_integer v then none else some (num v)
  strict (Raw.negative v) = none
  strict Raw.float = none
  strict (Raw.text t) = some (str t)
  strict (Raw.seq vs) = elim (strict_items vs) [ none ↦ none | some ws ↦ some (arr ws) ]
  strict (Raw.map ms) = elim (strict_members ms end) [ none ↦ none | some ns ↦ some (obj ns) ]

  pub strict_items : RawItems → Option Items
  strict_items last = some nil
  strict_items (item v vs) = with_item (strict v) (strict_items vs)

  pub strict_members : RawMembers → Members → Option Members
  strict_members closed acc = some acc
  strict_members (entry k v ms) acc =
      if has_key k acc
      then none
      else elim (strict v) [ none ↦ none | some w ↦ strict_members ms (insert k w acc) ]

pub data Refusal : Type 0 where
  depth_exceeds_32 negative_number leading_zero float_or_exponent : Refusal

pub data Scan : Type 0 where
  clean : Scan
  refused : Refusal → Scan
  out_of_fuel : Scan

abbrev pub is_digit : ℕ → Bool
is_digit b = leb b'0' b && leb b b'9'

-- The inner loop over the digits of a number: what is left behind them.
unfoldable pub skip_digits : List ℕ → List ℕ
skip_digits [] = []
skip_digits (b ∷ bs) = let rest = skip_digits bs in if is_digit b then rest else b ∷ bs

abbrev pub starts_fraction : List ℕ → Bool
starts_fraction [] = false
starts_fraction (b ∷ bs) = b == b'.' || b == b'e' || b == b'E'

-- The outer loop, from the bytes that are left; each round takes one byte, or a whole number.
unfoldable pub scan : ℕ → Bool → Bool → ℕ → List ℕ → Scan
unfolding skip_digits
scan fuel quoted escaped depth [] = clean
scan zero quoted escaped depth (b ∷ bs) = out_of_fuel
scan (suc fuel) true escaped depth (b ∷ bs) =
    if escaped
    then scan fuel true false depth bs
    else if b == b'\\'
    then scan fuel true true depth bs
    else scan fuel (b /= b'"') false depth bs
scan (suc fuel) false escaped depth (b ∷ bs) =
    let quote = scan fuel true escaped depth bs in
    let opened = scan fuel false escaped (depth + 1) bs in
    let shut = scan fuel false escaped (depth - 1) bs in
    let number = scan fuel false escaped depth (skip_digits bs) in
    let other = scan fuel false escaped depth bs in
    if b == b'"'
    then quote
    else if b == b'{' || b == b'['
    then (if ltb 32 (depth + 1) then refused depth_exceeds_32 else opened)
    else if b == b'}' || b == b']'
    then shut
    else if b == b'-'
    then refused negative_number
    else if is_digit b
    then (if ltb (length (skip_digits bs)) (length bs) && b == b'0'
        then refused leading_zero
        else if starts_fraction (skip_digits bs)
        then refused float_or_exponent
        else number)
    else other

abbrev starts_with_bom : List ℕ → Bool
starts_with_bom (a ∷ b ∷ c ∷ bs) = a == 239 && b == 187 && c == 191
starts_with_bom bs = false

abbrev pub is_clean : Scan → Bool
is_clean clean = true
is_clean _ = false

-- `parse`: `none` stands for each of its errors, which no caller tells apart.
unfoldable pub parse : ⦃x : External⦄ → List ℕ → Option Value
parse ⦃x⦄ bytes =
    if not (x.is_utf8 bytes)
    then none
    else if starts_with_bom bytes
    then none
    else if not (is_clean (scan (length bytes) false false 0 bytes))
    then none
    else elim (x.read_json bytes) [ none ↦ none | some r ↦ strict r ]
