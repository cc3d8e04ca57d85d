-- ===== src/Wire/Query/Canonical.antt =====
-- The percent-encoding of src/api/wire.rs has one output form, which it leaves alone.
use palla_sync.Prelude.{
  ℕ, ◌/◌, ◌%◌, ◌<◌, true, false, ◌≡◌, refl, some, [], ◌∷◌, ◌++◌, arith, Bool-cases, inl, inr, ◌==◌,
  nat_eq, ap, subst, ◌∙◌, sym, Option-cases,
}
use mathlib.Core.List.{append-nil}
use palla_sync.Error.{Result, ok, err}
use palla_sync.Wire.Query.{
  Bytes, hex_value, from_radix_16, is_unreserved, upper_hex, encode_byte, pct, prefixed, decoded,
}

hex_value-lt : (b v : ℕ) → hex_value b ≡ some v → v < 16
unfolding hex_value
hex_value-lt b v h = ground arith

from_radix_16-lt : (h l v : ℕ) → from_radix_16 h l ≡ some v → v < 256
unfolding from_radix_16
from_radix_16-lt h l v e = ground (arith, hex_value-lt l v)

from_radix_16-upper_hex :
    (v : ℕ) → v < 256 → from_radix_16 (upper_hex (v / 16)) (upper_hex (v % 16)) ≡ some v
unfolding from_radix_16 hex_value upper_hex
from_radix_16-upper_hex v h = ground arith

unreserved-ne_percent : (v : ℕ) → is_unreserved v ≡ true → (v == b'%') ≡ false
unfolding is_unreserved
unreserved-ne_percent v h = ground arith

-- A byte that is not escaped is passed on in front of what the rest gives.
pct-plain :
    (b : ℕ) (bs : Bytes) → (b == b'%') ≡ false → pct (b ∷ bs) ≡ prefixed (encode_byte b) (pct bs)
unfolding pct
pct-plain b [] h = rw (h, append-nil)
pct-plain b (x ∷ []) h = rw h
pct-plain b (x ∷ y ∷ bs) h = rw h

encode_byte-plain : (v : ℕ) → is_unreserved v ≡ true → encode_byte v ≡ v ∷ []
unfolding encode_byte
encode_byte-plain v h = rw h

encode_byte-escaped :
    (v : ℕ)
    → is_unreserved v ≡ false
    → encode_byte v ≡ b'%' ∷ upper_hex (v / 16) ∷ upper_hex (v % 16) ∷ []
unfolding encode_byte
encode_byte-escaped v h = rw h

pct-escape :
    (v : ℕ) (bs : Bytes)
    → v < 256
    → pct (b'%' ∷ upper_hex (v / 16) ∷ upper_hex (v % 16) ∷ bs) ≡ prefixed (encode_byte v) (pct bs)
unfolding pct
pct-escape v bs h = rw (from_radix_16-upper_hex v h)

pct-encode_byte :
    (v : ℕ) (bs : Bytes) → v < 256 → pct (encode_byte v ++ bs) ≡ prefixed (encode_byte v) (pct bs)
pct-encode_byte v bs h = elim (Bool-cases (is_unreserved v)) [
  | inl plain ↦
      ap (λ (e : Bytes). pct (e ++ bs)) (encode_byte-plain v plain)
      ∙ pct-plain v bs (unreserved-ne_percent v plain)
  | inr escaped ↦
      ap (λ (e : Bytes). pct (e ++ bs)) (encode_byte-escaped v escaped) ∙ pct-escape v bs h
]

-- The form that the encoding produces: each byte of `out` passes through unchanged.
abbrev IsCanonical : Bytes → Type 0
IsCanonical out = pct out ≡ ok out

IsCanonical-encode_byte :
    (v : ℕ) (out : Bytes) → v < 256 → IsCanonical out → IsCanonical (encode_byte v ++ out)
IsCanonical-encode_byte v out h c = pct-encode_byte v out h ∙ ap (prefixed (encode_byte v)) c

prefixed-eq_ok :
    (p : Bytes) (r : Result Bytes) (out : Bytes)
    → prefixed p r ≡ ok out
    → (o : Bytes) × (r ≡ ok o) × (out ≡ p ++ o)
prefixed-eq_ok p (ok o) out h = (o, refl, cc)
prefixed-eq_ok p (err e) out h = cc

IsCanonical-prefixed :
    (v : ℕ) (r : Result Bytes) (out : Bytes)
    → v < 256
    → ((o : Bytes) → r ≡ ok o → IsCanonical o)
    → prefixed (encode_byte v) r ≡ ok out
    → IsCanonical out
IsCanonical-prefixed v r out h rest e =
    let (o, p, q) = prefixed-eq_ok (encode_byte v) r out e in
    subst IsCanonical (sym q) (IsCanonical-encode_byte v o h (rest o p))

abbrev pub IsBytes : Bytes → Type 0
IsBytes [] = Unit
IsBytes (b ∷ bs) = (b < 256) × IsBytes bs

IsCanonical-plain :
    (b : ℕ) (bs out : Bytes)
    → (b == b'%') ≡ false
    → b < 256
    → ((o : Bytes) → pct bs ≡ ok o → IsCanonical o)
    → pct (b ∷ bs) ≡ ok out
    → IsCanonical out
IsCanonical-plain b bs out e w rest h =
    IsCanonical-prefixed b (pct bs) out w rest (sym (pct-plain b bs e) ∙ h)

IsCanonical-decoded :
    (x y : ℕ) (bs out : Bytes)
    → ((o : Bytes) → pct bs ≡ ok o → IsCanonical o)
    → decoded (from_radix_16 x y) (pct bs) ≡ ok out
    → IsCanonical out
IsCanonical-decoded x y bs out rest h = elim (Option-cases (from_radix_16 x y)) [
  | inl e ↦ absurd (ground (arith, e))
  | inr (v, e) ↦
      IsCanonical-prefixed v (pct bs) out (from_radix_16-lt x y v e) rest
        (subst (λ o. decoded o (pct bs) ≡ ok out) e h)
]

-- What the percent-encoding accepts it brings into a form that it maps to itself.
pub pct_idem : (bs out : Bytes) → IsBytes bs → pct bs ≡ ok out → pct out ≡ ok out
unfolding pct
pct_idem [] out w h = let e : [] ≡ out = cc in subst IsCanonical e refl
pct_idem (b ∷ []) out w h = elim (Bool-cases (b == b'%')) [
  | inl e ↦ absurd (ground (arith, e))
  | inr e ↦ IsCanonical-plain b [] out e w.0 (λ o p. pct_idem [] o tt p) h
]
pct_idem (b ∷ x ∷ []) out w h = elim (Bool-cases (b == b'%')) [
  | inl e ↦ absurd (ground (arith, e))
  | inr e ↦ IsCanonical-plain b (x ∷ []) out e w.0 (λ o p. pct_idem (x ∷ []) o w.1 p) h
]
pct_idem (b ∷ x ∷ y ∷ bs) out w h = elim (Bool-cases (b == b'%')) [
  | inl e ↦ IsCanonical-decoded x y bs out (λ o p. pct_idem bs o w.1.1.1 p) (ground (arith, e))
  | inr e ↦ IsCanonical-plain b (x ∷ y ∷ bs) out e w.0 (λ o p. pct_idem (x ∷ y ∷ bs) o w.1 p) h
]
