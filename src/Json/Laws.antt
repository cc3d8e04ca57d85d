-- ===== src/Json/Laws.antt =====
-- The laws of members and of the equality test of JSON values (src/api/wire.rs, src/crypto/jcs.rs).
use palla_sync.Prelude.{
  true, ◌≡◌, refl, some, ◌==◌, nat_eq, text_eq, if◌then◌else◌, String, arith, and-eq_true, ◌&&◌,
}
use text.Mathlib.TextEquality.{eq_iff}
use palla_sync.Json.{
  Value, Items, Members, null, bool, num, str, arr, obj, nil, cons, end, member, get, insert,
  value_beq, items_beq, members_beq, set_member, ◌!◌, is_object,
}

pub get-insert :
    (k j : String) (v : Value) (ms : Members)
    → get j (insert k v ms) ≡ (if k == j then some v else get j ms)
unfolding get insert
get-insert k j v end = refl
get-insert k j v (member i w ms) =
    ground (arith, eq_iff k j, eq_iff i k, eq_iff i j, get-insert k j v ms)

-- What stands under a key of an object after a member was set.
pub set_member-get :
    (v u : Value) (k j : String)
    → is_object v ≡ true
    → (set_member v k u ! j) ≡ (if k == j then u else v ! j)
unfolding set_member ◌!◌
set_member-get (obj ms) u k j h = ground (arith, get-insert k j u ms)
set_member-get null u k j h = cc
set_member-get (bool b) u k j h = cc
set_member-get (num n) u k j h = cc
set_member-get (str t) u k j h = cc
set_member-get (arr vs) u k j h = cc

pub set_member-object :
    (v u : Value) (k : String) → is_object v ≡ true → is_object (set_member v k u) ≡ true
unfolding set_member
set_member-object (obj ms) u k h = refl
set_member-object null u k h = cc
set_member-object (bool b) u k h = cc
set_member-object (num n) u k h = cc
set_member-object (str t) u k h = cc
set_member-object (arr vs) u k h = cc

mutual
  unfolding value_beq

  value_beq_sound : (v w : Value) → value_beq v w ≡ true → v ≡ w
  value_beq_sound null w h = ground arith
  value_beq_sound (bool b) w h = ground arith
  value_beq_sound (num x) w h = ground arith
  value_beq_sound (str t) (str u) h = ground (arith, eq_iff t u)
  value_beq_sound (str t) w h = ground arith
  value_beq_sound (arr vs) (arr ws) h = ground (arith, items_beq_sound vs ws h)
  value_beq_sound (arr vs) w h = ground arith
  value_beq_sound (obj ms) (obj ns) h = ground (arith, members_beq_sound ms ns h)
  value_beq_sound (obj ms) w h = ground arith

  items_beq_sound : (vs ws : Items) → items_beq vs ws ≡ true → vs ≡ ws
  items_beq_sound nil nil h = refl
  items_beq_sound nil (cons w ws) h = ground arith
  items_beq_sound (cons v vs) nil h = ground arith
  items_beq_sound (cons v vs) (cons w ws) h =
      ground (arith, value_beq_sound v w, items_beq_sound vs ws)

  members_beq_sound : (ms ns : Members) → members_beq ms ns ≡ true → ms ≡ ns
  members_beq_sound end end h = refl
  members_beq_sound end (member j w ns) h = ground arith
  members_beq_sound (member k v ms) end h = ground arith
  members_beq_sound (member k v ms) (member j w ns) h =
      let (same_key, rest) = and-eq_true (k == j) (value_beq v w && members_beq ms ns) h in
      let (same_value, same_rest) = and-eq_true (value_beq v w) (members_beq ms ns) rest in
      cc
        ((eq_iff k j).0 same_key, value_beq_sound v w same_value, members_beq_sound ms ns same_rest)

mutual
  unfolding value_beq

  pub value_beq_refl : (v : Value) → value_beq v v ≡ true
  value_beq_refl null = refl
  value_beq_refl (bool b) = ground arith
  value_beq_refl (num x) = ground arith
  value_beq_refl (str t) = (eq_iff t t).1 refl
  value_beq_refl (arr vs) = items_beq_refl vs
  value_beq_refl (obj ms) = members_beq_refl ms

  items_beq_refl : (vs : Items) → items_beq vs vs ≡ true
  items_beq_refl nil = refl
  items_beq_refl (cons v vs) = ground (arith, value_beq_refl v, items_beq_refl vs)

  members_beq_refl : (ms : Members) → members_beq ms ms ≡ true
  members_beq_refl end = refl
  members_beq_refl (member k v ms) =
      ground (arith, eq_iff k k, value_beq_refl v, members_beq_refl ms)

pub value_beq→eq : (v w : Value) → value_beq v w ≡ true → v ≡ w
value_beq→eq v w h = value_beq_sound v w h

pub value_beq_self : (v : Value) → value_beq v v ≡ true
value_beq_self v = value_beq_refl v
