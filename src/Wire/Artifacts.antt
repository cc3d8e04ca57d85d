-- ===== src/Wire/Artifacts.antt =====
-- The ban on local recovery objects in public JSON (`reject_local_artifacts` of src/api/wire.rs).
pub mod Recursive
use Prim.Native.Nat.{ℕ}
use palla_sync.Prelude.{
  zero, suc, ◌+◌, Bool, true, false, ◌&&◌, ◌||◌, Option, none, some, List, [], ◌∷◌, text_eq,
  if◌then◌else◌, String, contains,
}
use palla_sync.Json.{
  Value, Items, Members, null, bool, num, str, arr, obj, nil, cons, end, member, get, to_list,
  entries, as_str,
}
use palla_sync.Error.{Result, ok, throw, invalid_field, internal_error}

abbrev artifact_types : List String
artifact_types =
    "PALLASYNC-RECOVERY-BLOB-v3" ∷ "PALLASYNC-RECOVERY-SET-v3" ∷ "PALLASYNC-RECOVERY-STATUS-v3"
    ∷ "PALLASYNC-RECOVERY-SHARE-v3" ∷ "PALLASYNC-RECOVERY-PACKAGE-v3"
    ∷ "PALLASYNC-OFFLINE-SHARE-KEY-v3" ∷ "PALLASYNC-RECOVERY-SESSION-v3"
    ∷ "PALLASYNC-RECOVERY-TRANSFER-v3" ∷ []

abbrev is_artifact_type : Option Value → Bool
is_artifact_type (some (str kind)) = contains artifact_types kind
is_artifact_type _ = false

abbrev has {ℓ} : {A : Type ℓ} → Option A → Bool
has none = false
has (some a) = true

-- The test of one object.
unfoldable pub is_artifact : Members → Bool
is_artifact o =
    is_artifact_type (get "type" o) || (has (get "mnemonic" o) && has (get "passphrase" o))

-- `Vec::extend` on a stack whose top is the list's head.
unfoldable pub push_items : Items → List Value → List Value
push_items nil pending = pending
push_items (cons v vs) pending = push_items vs (v ∷ pending)

unfoldable pub push_values : Members → List Value → List Value
push_values end pending = pending
push_values (member k v ms) pending = push_values ms (v ∷ pending)

unfoldable mutual
  pub size : Value → ℕ
  size null = 1
  size (bool b) = 1
  size (num x) = 1
  size (str t) = 1
  size (arr vs) = suc (size_items vs)
  size (obj ms) = suc (size_members ms)

  pub size_items : Items → ℕ
  size_items nil = 0
  size_items (cons v vs) = size v + size_items vs

  pub size_members : Members → ℕ
  size_members end = 0
  size_members (member k v ms) = size v + size_members ms

-- The loop over the pending values: whether an artifact is found, `none` if the fuel runs out.
unfoldable pub find_artifact : ℕ → List Value → Option Bool
unfolding is_artifact push_items push_values
find_artifact fuel [] = some false
find_artifact zero (v ∷ pending) = none
find_artifact (suc fuel) (obj o ∷ pending) =
    let rest = find_artifact fuel (push_values o pending) in
    if is_artifact o then some true else rest
find_artifact (suc fuel) (arr vs ∷ pending) = find_artifact fuel (push_items vs pending)
find_artifact (suc fuel) (v ∷ pending) = find_artifact fuel pending

-- Each round takes one value, so its size is fuel enough; `internal_error` is not reached.
unfoldable pub reject_local_artifacts : Value → Result (Unit {0})
reject_local_artifacts v = elim (find_artifact (size v) (v ∷ [])) [
  | none ↦ throw internal_error
  | some found ↦ if found then throw invalid_field else ok tt
]
