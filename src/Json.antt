-- ===== src/Json.antt =====
-- JSON values (`serde_json::Value`) and the accessors of src/api/wire.rs. A number is a natural
-- number: the strict parser of src/crypto/jcs.rs lets no other through, and the relay writes no other.
-- An object is a list of members in the order of their keys, as `serde_json::Map` keeps it.
pub mod Raw
pub mod Laws
use palla_sync.Prelude.{
  ℕ, Bool, true, false, ◌&&◌, Option, none, some, List, [], ◌∷◌, ◌==◌, text_ltb, if◌then◌else◌,
  String, nat_eq, text_eq,
}

mutual
  pub data Value : Type 0 where
    null : Value
    bool : Bool → Value
    num : ℕ → Value
    str : String → Value
    arr : Items → Value
    obj : Members → Value

  pub data Items : Type 0 where
    nil : Items
    cons : Value → Items → Items

  pub data Members : Type 0 where
    end : Members
    member : String → Value → Members → Members

abbrev pub to_list : Items → List Value
to_list nil = []
to_list (cons v vs) = v ∷ to_list vs

abbrev pub from_list : List Value → Items
from_list [] = nil
from_list (v ∷ vs) = cons v (from_list vs)

abbrev pub entries : Members → List (String × Value)
entries end = []
entries (member k v ms) = (k, v) ∷ entries ms

-- `Map::get`
unfoldable pub get : String → Members → Option Value
get k end = none
get k (member j v ms) = if j == k then some v else get k ms

-- `Map::insert`
unfoldable pub insert : String → Value → Members → Members
insert k v end = member k v end
insert k v (member j w ms) =
    if j == k
    then member k v ms
    else if text_ltb k j
    then member k v (member j w ms)
    else member j w (insert k v ms)

-- `Map::remove`
unfoldable pub remove : String → Members → Members
remove k end = end
remove k (member j w ms) = if j == k then ms else member j w (remove k ms)

-- `Value::get`
unfoldable pub lookup : Value → String → Option Value
unfolding get
lookup (obj ms) k = get k ms
lookup v k = none

-- `v[key]`: null where there is no such member.
infixl 80 ◌!◌
unfoldable pub ◌!◌ : Value → String → Value
unfolding lookup
v ! k = elim (lookup v k) [ none ↦ null | some w ↦ w ]

abbrev pub is_null : Value → Bool
is_null null = true
is_null _ = false

abbrev pub is_object : Value → Bool
is_object (obj _) = true
is_object _ = false

abbrev pub as_u64 : Value → Option ℕ
as_u64 (num x) = some x
as_u64 _ = none

abbrev pub as_str : Value → Option String
as_str (str t) = some t
as_str _ = none

-- `s`, `n` and `a` of wire.rs
unfoldable pub s : Value → String → String
unfolding ◌!◌
s v k = elim (v ! k) [ str t ↦ t | _ ↦ "" ]

unfoldable pub n : Value → String → ℕ
unfolding ◌!◌
n v k = elim (v ! k) [ num x ↦ x | _ ↦ 0 ]

unfoldable pub a : Value → String → List Value
unfolding ◌!◌
a v k = elim (v ! k) [ arr vs ↦ to_list vs | _ ↦ [] ]

-- `json!({…})`: the members are inserted one after the other.
abbrev insert_all : List (String × Value) → Members → Members
insert_all [] ms = ms
insert_all ((k, v) ∷ l) ms = insert_all l (insert k v ms)

unfoldable pub object : List (String × Value) → Value
unfolding insert
object l = obj (insert_all l end)

abbrev pub array : List Value → Value
array vs = arr (from_list vs)

-- `v[key] = w` on an object
unfoldable pub set_member : Value → String → Value → Value
unfolding insert
set_member (obj ms) k w = obj (insert k w ms)
set_member v k w = v

abbrev pub opt_num : Option ℕ → Value
opt_num none = null
opt_num (some x) = num x

abbrev pub opt_str : Option String → Value
opt_str none = null
opt_str (some t) = str t

unfoldable mutual
  pub value_beq : Value → Value → Bool
  value_beq null null = true
  value_beq (bool b) (bool c) = if b then c else (if c then false else true)
  value_beq (num x) (num y) = x == y
  value_beq (str t) (str u) = t == u
  value_beq (arr vs) (arr ws) = items_beq vs ws
  value_beq (obj ms) (obj ns) = members_beq ms ns
  value_beq _ _ = false

  pub items_beq : Items → Items → Bool
  items_beq nil nil = true
  items_beq (cons v vs) (cons w ws) = value_beq v w && items_beq vs ws
  items_beq _ _ = false

  pub members_beq : Members → Members → Bool
  members_beq end end = true
  members_beq (member k v ms) (member j w ns) = (k == j) && (value_beq v w && members_beq ms ns)
  members_beq _ _ = false
