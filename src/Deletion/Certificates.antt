-- ===== src/Deletion/Certificates.antt =====
-- The loop of `delete` in src/api/deletion.rs that follows a device's enrollment certificates up to
-- the admin. It only reads, so it is a function of the database. Its fuel is above the number of
-- object rows; `none` stands for fuel that ran out.
pub mod Exact
use palla_sync.Prelude.{
  ℕ, zero, suc, Bool, Option, none, some, List, [], ◌∷◌, String, ◌==◌, text_eq, contains, length,
  if◌then◌else◌,
}
use palla_sync.Json.{Value, ◌!◌, s}
use palla_sync.Error.{Result, ok, err, throw, enrollment_certificate_invalid}
use palla_sync.Db.{Db, Kind, device}
use palla_sync.Store.Objects.{find_object}

abbrev pub refused : Option (Result (List Value))
refused = some (throw enrollment_certificate_invalid)

abbrev pub push_certificate : Value → Option (Result (List Value)) → Option (Result (List Value))
push_certificate cert none = none
push_certificate cert (some (ok certs)) = some (ok (cert ∷ certs))
push_certificate cert (some (err e)) = some (err e)

abbrev pub by_admin : Value → Bool
by_admin cert = s cert "signer_kind" == "admin"

-- `seen` holds the devices that the loop has been at.
unfoldable pub walk : Db → String → ℕ → String → List String → Option (Result (List Value))
walk db c zero id seen = none
walk db c (suc fuel) id seen =
    if contains seen id then refused else elim (find_object db (c, (device, id))) [
      | none ↦ refused
      | some d ↦
          let cert = d ! "enrollment" in
          let rest = walk db c fuel (s cert "signer_device_id") (id ∷ seen) in
          if by_admin cert then some (ok (cert ∷ [])) else push_certificate cert rest
    ]

abbrev pub enough : Db → ℕ
enough db = suc (length db.objects)

abbrev pub finished : Option (Result (List Value)) → Result (List Value)
finished none = throw enrollment_certificate_invalid
finished (some r) = r

abbrev pub walk_from : Db → String → Option String → Result (List Value)
walk_from db c none = ok []
walk_from db c (some id) = finished (walk db c (enough db) id [])

-- The public key of the device that the walk begins at.
abbrev first_key_of : Option Value → Option String
first_key_of none = none
first_key_of (some d) = some (s d "device_public_key")

abbrev pub first_key : Db → String → Option String → Option String
first_key db c none = none
first_key db c (some id) = first_key_of (find_object db (c, (device, id)))
