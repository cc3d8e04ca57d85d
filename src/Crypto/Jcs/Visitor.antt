-- ===== src/Crypto/Jcs/Visitor.antt =====
-- The visitor of src/crypto/jcs.rs accepts exactly the I-JSON values.
use palla_sync.Prelude.{
  is_some, Bool, true, false, not, ◌&&◌, ◌≡◌, refl, ◌==◌, text_eq, Option-cases, inl, inr, ◌↔◌, leb,
  if◌then◌else◌, String, arith,
}
use text.Mathlib.TextEquality.{eq_iff}
use palla_sync.Json.{Members, end, get, insert}
use palla_sync.Json.Laws.{get-insert}
use palla_sync.Json.Raw.{Raw, RawItems, RawMembers, last, item, closed, entry}
use palla_sync.Crypto.Jcs.{max_integer, has_key, strict, strict_items, strict_members}

abbrev pub occurs : String → RawMembers → Bool
occurs k closed = false
occurs k (entry j v ms) = if j == k then true else occurs k ms

-- No negative number, no fraction, no integer past the safe range and no repeated member, at any depth.
unfoldable mutual
  pub is_strict : Raw → Bool
  is_strict Raw.unit = true
  is_strict (Raw.boolean b) = true
  is_strict (Raw.unsigned v) = leb v max_integer
  is_strict (Raw.negative v) = false
  is_strict Raw.float = false
  is_strict (Raw.text t) = true
  is_strict (Raw.seq vs) = are_strict vs
  is_strict (Raw.map ms) = members_are_strict ms

  pub are_strict : RawItems → Bool
  are_strict last = true
  are_strict (item v vs) = is_strict v && are_strict vs

  pub members_are_strict : RawMembers → Bool
  members_are_strict closed = true
  members_are_strict (entry k v ms) = not (occurs k ms) && (is_strict v && members_are_strict ms)

-- None of the members is in the object that the visitor has built.
abbrev disjoint : RawMembers → Members → Bool
disjoint closed acc = true
disjoint (entry k v ms) acc = not (has_key k acc) && disjoint ms acc

disjoint-end : (ms : RawMembers) → disjoint ms end ≡ true
unfolding get
disjoint-end closed = refl
disjoint-end (entry k v ms) = disjoint-end ms

disjoint-insert :
    (ms : RawMembers) (k : String) (v : _) (acc : Members)
    → disjoint ms (insert k v acc) ≡ not (occurs k ms) && disjoint ms acc
disjoint-insert closed k v acc = refl
disjoint-insert (entry j w ms) k v acc =
    ground (arith, disjoint-insert ms k v acc, get-insert k j v acc, eq_iff k j, eq_iff j k)

mutual
  unfolding strict is_strict

  strict-is_strict : (r : Raw) → is_some (strict r) ≡ is_strict r
  strict-is_strict Raw.unit = refl
  strict-is_strict (Raw.boolean b) = refl
  strict-is_strict (Raw.unsigned v) = ground arith
  strict-is_strict (Raw.negative v) = refl
  strict-is_strict Raw.float = refl
  strict-is_strict (Raw.text t) = refl
  strict-is_strict (Raw.seq vs) = ground (arith, strict_items-are_strict vs)
  strict-is_strict (Raw.map ms) = ground (arith, strict_members-are_strict ms end, disjoint-end ms)

  strict_items-are_strict : (vs : RawItems) → is_some (strict_items vs) ≡ are_strict vs
  strict_items-are_strict last = refl
  strict_items-are_strict (item v vs) =
      ground (arith, strict-is_strict v, strict_items-are_strict vs)

  strict_members-are_strict :
      (ms : RawMembers) (acc : Members)
      → is_some (strict_members ms acc) ≡ disjoint ms acc && members_are_strict ms
  strict_members-are_strict closed acc = refl
  strict_members-are_strict (entry k v ms) acc = elim (Option-cases (strict v)) [
    | inl e ↦ ground (arith, strict-is_strict v)
    | inr (w, e) ↦ ground (
      arith,
      strict-is_strict v,
      strict_members-are_strict ms (insert k w acc),
      disjoint-insert ms k w acc,
    )
  ]

pub is_some-strict : (r : Raw) → is_some (strict r) ≡ is_strict r
is_some-strict r = strict-is_strict r

-- The visitor accepts what serde_json reports exactly if no number in it is negative, fractional or
-- past 2^53 - 1 and no object in it, at any depth, repeats a member.
pub strict_accepts : (r : Raw) → (is_some (strict r) ≡ true) ↔ (is_strict r ≡ true)
strict_accepts r = (λ h. cc (strict-is_strict r), λ h. cc (strict-is_strict r))
