-- ===== src/Deletion/Certificates/Exact.antt =====
-- The walk along enrollment certificates (src/api/deletion.rs) ends, and finds exactly the chains
-- that lead to the admin.
use palla_sync.Prelude.{
  ℕ, zero, suc, ◌<◌, Bool, true, false, not, Option, none, some, List, [], ◌∷◌, String, ◌==◌, ◌≡◌,
  ◌≢◌, ◌↔◌, ◌⊎◌, inl, inr, refl, sym, ap, arith, text_eq, pair_eq, contains, length, count_rows,
  count_rows-lt, find_row, Bool-cases, Option-cases, ==_iff, subst, ◌∙◌, ◌≤◌,
}
use palla_sync.Json.{Value, ◌!◌, s}
use palla_sync.Error.{Result, ok}
use palla_sync.Db.{Db, device, kind_eq, ObjectKey, ObjectRow}
use palla_sync.Store.Objects.{find_object}
use palla_sync.Deletion.Certificates.{walk, walk_from, enough, push_certificate, by_admin, finished}

abbrev certificate_of : Option Value → Option Value
certificate_of none = none
certificate_of (some d) = some (d ! "enrollment")

abbrev certificate : Db → String → String → Option Value
certificate db c id = certificate_of (find_object db (c, (device, id)))

-- The certificates from a device on: each is signed by the device that the next one is of, and the
-- last one by the admin.
abbrev pub Leads : Db → String → String → List Value → Type 0
Leads db c id [] = ⊥
Leads db c id (cert ∷ certs) =
    (certificate db c id ≡ some cert)
    × (((by_admin cert ≡ true) × (certs ≡ []))
        ⊎ ((by_admin cert ≡ false) × Leads db c (s cert "signer_device_id") certs))

module _ (db : Db) (c : String) where
  Leads-unique : (id : String) (xs ys : List Value) → Leads db c id xs → Leads db c id ys → xs ≡ ys
  Leads-unique id [] ys h k = absurd h
  Leads-unique id (x ∷ xs) [] h k = absurd k
  Leads-unique id (x ∷ xs) (y ∷ ys) (p, inl (a, e)) (q, inl (b, f)) = ground arith
  Leads-unique id (x ∷ xs) (y ∷ ys) (p, inl (a, e)) (q, inr (b, f)) = ground arith
  Leads-unique id (x ∷ xs) (y ∷ ys) (p, inr (a, e)) (q, inl (b, f)) = ground arith
  Leads-unique id (x ∷ xs) (y ∷ ys) (p, inr (a, e)) (q, inr (b, f)) =
      let same : x ≡ y = ground (arith, p, q) in
      ap (λ l. x ∷ l)
        (Leads-unique (s x "signer_device_id") xs ys e
          (subst (λ v. Leads db c (s v "signer_device_id") ys) (sym same) f))
      ∙ ap (λ v. v ∷ ys) same

  walk_sound :
      (fuel : ℕ) (id : String) (seen : List String) (certs : List Value)
      → walk db c fuel id seen ≡ some (ok certs)
      → Leads db c id certs
  unfolding walk
  walk_sound zero id seen certs h = ground arith
  walk_sound (suc fuel) id seen [] h = ground arith
  walk_sound (suc fuel) id seen (cert ∷ certs) h =
      let found : certificate db c id ≡ some cert = ground arith in
      elim (Bool-cases (by_admin cert)) [
        | inl last ↦ (found, inl (last, ground arith))
        | inr more ↦ (
          found,
          inr (more, walk_sound fuel (s cert "signer_device_id") (id ∷ seen) certs (ground arith)),
        )
      ]

  -- The devices that the walk has been at lead to the admin in more steps than are left.
  abbrev IsBehind : List Value → List String → Type 0
  IsBehind certs [] = Unit {0}
  IsBehind certs (j ∷ seen) =
      ((longer : List Value) × Leads db c j longer × (length certs < length longer))
      × IsBehind certs seen

  not-seen :
      (id : String) (certs : List Value) (seen : List String)
      → Leads db c id certs
      → IsBehind certs seen
      → contains seen id ≡ false
  unfolding contains
  not-seen id certs [] h b = refl
  not-seen id certs (j ∷ seen) h ((longer, k, lt), b) = elim (Bool-cases (j == id)) [
    | inl same ↦
        let e : longer ≡ certs =
          Leads-unique id longer certs (subst (λ i. Leads db c i longer) ((==_iff j id).0 same) k)
            h in
        absurd (omega (arith, ap length e, lt))
    | inr other ↦ ground (arith, other, not-seen id certs seen h b)
  ]

  IsBehind-less :
      (certs : List Value) (cert : Value) (seen : List String)
      → IsBehind (cert ∷ certs) seen
      → IsBehind certs seen
  IsBehind-less certs cert [] b = tt
  IsBehind-less certs cert (j ∷ seen) ((longer, k, lt), b) =
      ((longer, k, omega arith), IsBehind-less certs cert seen b)

  walk-next :
      (fuel : ℕ) (id : String) (seen : List String) (cert : Value)
      → contains seen id ≡ false
      → certificate db c id ≡ some cert
      → by_admin cert ≡ false
      → walk db c (suc fuel) id seen
        ≡ push_certificate cert (walk db c fuel (s cert "signer_device_id") (id ∷ seen))
  unfolding walk
  walk-next fuel id seen cert new found more = ground arith

  walk_complete :
      (fuel : ℕ) (id : String) (seen : List String) (certs : List Value)
      → Leads db c id certs
      → IsBehind certs seen
      → walk db c fuel id seen ≢ none
      → walk db c fuel id seen ≡ some (ok certs)
  unfolding walk
  walk_complete zero id seen certs h b ends = absurd (ends refl)
  walk_complete (suc fuel) id seen [] h b ends = absurd h
  walk_complete (suc fuel) id seen (cert ∷ certs) (found, inl (last, e)) b ends =
      ground (arith, not-seen id (cert ∷ certs) seen (found, inl (last, e)) b)
  walk_complete (suc fuel) id seen (cert ∷ certs) (found, inr (more, h)) b ends =
      let whole : Leads db c id (cert ∷ certs) = (found, inr (more, h)) in
      let step = walk-next fuel id seen cert (not-seen id (cert ∷ certs) seen whole b) found more in
      let behind : IsBehind certs (id ∷ seen) =
        ((cert ∷ certs, whole, omega arith), IsBehind-less certs cert seen b) in
      step
      ∙ ap (push_certificate cert) (
          walk_complete fuel (s cert "signer_device_id") (id ∷ seen) certs h behind
            (λ e. ends (step ∙ ap (push_certificate cert) e)))

  abbrev unseen : List String → ObjectKey → ObjectRow → Bool
  unseen seen k r = not (contains seen k.1.1)

  unseen-fewer :
      (id : String) (seen : List String) (d : Value)
      → contains seen id ≡ false
      → find_object db (c, (device, id)) ≡ some d
      → count_rows (unseen (id ∷ seen)) db.objects < count_rows (unseen seen) db.objects
  unfolding find_object contains
  unseen-fewer id seen d new found = elim (Option-cases (find_row (c, (device, id)) db.objects)) [
    | inl e ↦ ground (arith, e, found)
    | inr (r, e) ↦
        count_rows-lt (unseen seen) (unseen (id ∷ seen)) (c, (device, id)) r db.objects
          (λ j u q. ground arith) e (ground arith) (ground (arith, ==_iff id id))
  ]

  walk_ends :
      (fuel : ℕ) (id : String) (seen : List String)
      → count_rows (unseen seen) db.objects < fuel
      → walk db c fuel id seen ≢ none
  unfolding walk
  walk_ends zero id seen h = absurd (omega arith)
  walk_ends (suc fuel) id seen h = elim (Bool-cases (contains seen id)) [
    | inl old ↦ λ e. ground arith
    | inr new ↦ elim (Option-cases (find_object db (c, (device, id)))) [
      | inl missing ↦ λ e. ground arith
      | inr (d, found) ↦ λ e.
          walk_ends fuel (s (d ! "enrollment") "signer_device_id") (id ∷ seen)
            (omega (arith, unseen-fewer id seen d new found)) (ground (arith, new, found, e))
    ]
  ]

  count_rows-le-length :
      (p : ObjectKey → ObjectRow → Bool) (t : List (ObjectKey × ObjectRow))
      → count_rows p t ≤ length t
  unfolding count_rows
  count_rows-le-length p [] = omega arith
  count_rows-le-length p ((k, r) ∷ t) = ground (arith, count_rows-le-length p t)

  walk_ends_lem : (id : String) → walk db c (enough db) id [] ≢ none
  walk_ends_lem id =
      walk_ends (enough db) id [] (omega (arith, count_rows-le-length (unseen []) db.objects))

finished-ok :
    (r : Option (Result (List Value))) (certs : List Value)
    → finished r ≡ ok certs
    → r ≡ some (ok certs)
finished-ok none certs h = cc
finished-ok (some r) certs h = ap some h

-- Whatever is stored, the walk from a device does not run out of fuel, and it returns a list of
-- certificates exactly if they lead from the device to the admin, each signed by the device that the
-- next one is of and only the last one by the admin.
pub walk_from-Leads :
    (db : Db) (c id : String)
    → (walk db c (enough db) id [] ≢ none)
      × ((certs : List Value) → (walk_from db c (some id) ≡ ok certs) ↔ Leads db c id certs)
walk_from-Leads db c id = (
  walk_ends_lem db c id,
  λ certs. (
    λ h.
        walk_sound db c (enough db) id [] certs (finished-ok (walk db c (enough db) id []) certs h),
    λ h. ap finished (walk_complete db c (enough db) id [] certs h tt (walk_ends_lem db c id)),
  ),
)
