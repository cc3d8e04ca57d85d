-- ===== src/Store/Append/Stored.antt =====
-- The object table under `append` of src/api/store.rs: the new object is there, and no other row has
-- changed.
use palla_sync.Prelude.{
  ℕ, Bool, false, Option, some, ◌≡◌, String, pair_eq, text_eq, ◌==◌, find_row, arith, beq_self,
  Option-cases, Table, inl, inr, update_row, find_row-update_row,
}
use palla_sync.Json.{Value}
use palla_sync.Error.{ok}
use palla_sync.Crypto.Primitives.{External}
use palla_sync.Crypto.{object_hash}
use palla_sync.Db.{World, Kind, kind_eq, ObjectKey, ObjectRow, Chain}
use palla_sync.Store.Objects.{
  find_digest, object_digest, object_id, object_row, put_object, put_by_digest, insert_object,
  digest_of,
}
use palla_sync.Store.Append.{enter, place_object, insert_log, place_row}
use palla_sync.Store.Append.Effect.{object_key}

module _ ⦃x : External⦄ where
  pub put_object-stored :
      (c : String) (kind : Kind) (v : Value) (place : Option (String × ℕ)) (b : Bool) (w w' : World)
      → put_object c kind v place w ≡ (ok b, w')
      → find_digest w'.db (c, (kind, object_id v kind)) ≡ some (object_hash v)
  unfolding put_object put_by_digest object_digest insert_object find_digest find_row object_row
  put_object-stored c kind v place b w w' h =
      let key : ObjectKey = (c, (kind, object_id v kind)) in
      elim (Option-cases (find_row key w.objects)) [
        | inl e ↦ ground (arith, e, beq_self key)
        | inr (r, e) ↦ ground (arith, e, text_eq.decides {x = r.object_hash} {y = object_hash v})
      ]

  put_object-others :
      (c : String) (kind : Kind) (v : Value) (place : Option (String × ℕ)) (b : Bool) (w w' : World)
      (k : ObjectKey)
      → put_object c kind v place w ≡ (ok b, w')
      → ((c, (kind, object_id v kind)) == k) ≡ false
      → find_row k w'.objects ≡ find_row k w.objects
  unfolding put_object put_by_digest object_digest insert_object find_digest find_row object_row
  put_object-others c kind v place b w w' k h = ground arith

  -- `place_object` changes no digest, and no other row.
  place-digest :
      (k j : ObjectKey) (log : String) (seq : ℕ) (t : Table ObjectKey ObjectRow)
      → digest_of (find_row j (update_row k (place_row log seq) t)) ≡ digest_of (find_row j t)
  place-digest k j log seq t = ground (arith, find_row-update_row k j (place_row log seq) t)

  pub enter-digest :
      (c : Chain) (kind : Kind) (v : Value) (seq : ℕ) (entry : Value) (w w' : World) (k : ObjectKey)
      → enter c kind v seq entry w ≡ (ok tt, w')
      → find_digest w'.db k
        ≡ find_digest (put_object c.chain_id kind v (some (c.log_id, seq)) w).1.db k
  unfolding enter place_object insert_log find_digest
  enter-digest c kind v seq entry w w' k h = ground (
    arith,
    place-digest (object_key c kind v) k c.log_id seq
        (put_object c.chain_id kind v (some (c.log_id, seq)) w).1.objects,
  )
