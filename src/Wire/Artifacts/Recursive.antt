-- ===== src/Wire/Artifacts/Recursive.antt =====
-- `reject_local_artifacts` of src/api/wire.rs, a loop over a stack, against a plain recursion.
use palla_sync.Prelude.{
  ℕ, zero, suc, ◌+◌, ◌≤◌, Bool, false, ◌||◌, ◌≡◌, refl, some, List, [], ◌∷◌, if◌then◌else◌, arith,
}
use palla_sync.Json.{Value, Items, Members, null, bool, num, str, arr, obj, nil, cons, end, member}
use palla_sync.Error.{ok, throw, invalid_field}
use palla_sync.Wire.Artifacts.{
  is_artifact, push_items, push_values, size, size_items, size_members, find_artifact,
  reject_local_artifacts,
}

-- The value is an artifact, or one is nested in it at any depth.
unfoldable mutual
  pub holds_artifact : Value → Bool
  holds_artifact null = false
  holds_artifact (bool b) = false
  holds_artifact (num x) = false
  holds_artifact (str t) = false
  holds_artifact (arr vs) = items_hold vs
  holds_artifact (obj ms) = is_artifact ms || members_hold ms

  pub items_hold : Items → Bool
  items_hold nil = false
  items_hold (cons v vs) = holds_artifact v || items_hold vs

  pub members_hold : Members → Bool
  members_hold end = false
  members_hold (member k v ms) = holds_artifact v || members_hold ms

pending_hold : List Value → Bool
pending_hold [] = false
pending_hold (v ∷ pending) = holds_artifact v || pending_hold pending

pending_size : List Value → ℕ
pending_size [] = 0
pending_size (v ∷ pending) = size v + pending_size pending

pending-push_items :
    (vs : Items) (pending : List Value)
    → (pending_hold (push_items vs pending) ≡ items_hold vs || pending_hold pending)
      × (pending_size (push_items vs pending) ≡ size_items vs + pending_size pending)
unfolding pending_hold pending_size push_items holds_artifact size
pending-push_items nil pending = (refl, omega arith)
pending-push_items (cons v vs) pending =
    let (holds, sizes) = pending-push_items vs (v ∷ pending) in
    (ground (arith, holds), omega (arith, sizes))

pending-push_values :
    (ms : Members) (pending : List Value)
    → (pending_hold (push_values ms pending) ≡ members_hold ms || pending_hold pending)
      × (pending_size (push_values ms pending) ≡ size_members ms + pending_size pending)
unfolding pending_hold pending_size push_values holds_artifact size
pending-push_values end pending = (refl, omega arith)
pending-push_values (member k v ms) pending =
    let (holds, sizes) = pending-push_values ms (v ∷ pending) in
    (ground (arith, holds), omega (arith, sizes))

find_artifact-pending :
    (fuel : ℕ) (pending : List Value)
    → pending_size pending ≤ fuel
    → find_artifact fuel pending ≡ some (pending_hold pending)
unfolding find_artifact pending_hold pending_size holds_artifact size
find_artifact-pending fuel [] h = refl
find_artifact-pending zero (null ∷ pending) h = absurd (omega arith)
find_artifact-pending zero (bool b ∷ pending) h = absurd (omega arith)
find_artifact-pending zero (num x ∷ pending) h = absurd (omega arith)
find_artifact-pending zero (str t ∷ pending) h = absurd (omega arith)
find_artifact-pending zero (arr vs ∷ pending) h = absurd (omega arith)
find_artifact-pending zero (obj o ∷ pending) h = absurd (omega arith)
find_artifact-pending (suc fuel) (obj o ∷ pending) h =
    let (holds, sizes) = pending-push_values o pending in
    ground (arith, holds, find_artifact-pending fuel (push_values o pending) (omega (arith, sizes)))
find_artifact-pending (suc fuel) (arr vs ∷ pending) h =
    let (holds, sizes) = pending-push_items vs pending in
    ground (arith, holds, find_artifact-pending fuel (push_items vs pending) (omega (arith, sizes)))
find_artifact-pending (suc fuel) (null ∷ pending) h =
    find_artifact-pending fuel pending (omega arith)
find_artifact-pending (suc fuel) (bool b ∷ pending) h =
    find_artifact-pending fuel pending (omega arith)
find_artifact-pending (suc fuel) (num x ∷ pending) h =
    find_artifact-pending fuel pending (omega arith)
find_artifact-pending (suc fuel) (str t ∷ pending) h =
    find_artifact-pending fuel pending (omega arith)

-- The loop ends on every value, and rejects it exactly if a recovery object, or an object with a
-- mnemonic and a passphrase, stands in it at any depth.
pub reject_local_artifacts-holds :
    (v : Value)
    → reject_local_artifacts v ≡ (if holds_artifact v then throw invalid_field else ok tt)
unfolding reject_local_artifacts pending_hold pending_size
reject_local_artifacts-holds v =
    ground (arith, find_artifact-pending (size v) (v ∷ []) (omega arith))
