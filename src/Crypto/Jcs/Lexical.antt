-- ===== src/Crypto/Jcs/Lexical.antt =====
-- The scan of src/crypto/jcs.rs against an automaton that reads each byte once.
use palla_sync.Prelude.{
  ℕ, zero, suc, ◌+◌, ◌-◌, ◌≤◌, Bool, true, false, not, ◌&&◌, ◌||◌, ◌≡◌, refl, List, [], ◌∷◌, ◌==◌,
  ◌/=◌, nat_eq, ltb, if◌then◌else◌, length, arith, Bool-cases, inl, inr,
}
use palla_sync.Crypto.Jcs.{is_clean, is_digit, skip_digits, starts_fraction, scan}

length-skip_digits : (bs : List ℕ) → length (skip_digits bs) ≤ length bs
unfolding skip_digits
length-skip_digits [] = omega arith
length-skip_digits (b ∷ bs) = ground (arith, length-skip_digits bs)

-- Where the automaton stands: outside a number, behind a first digit 0, behind another digit.
pub data Seen : Type 0 where
  outside zero_first digits : Seen

abbrev in_number : Seen → Bool
in_number outside = false
in_number _ = true

abbrev next_digit : ℕ → Seen → Seen
next_digit b outside = if b == b'0' then zero_first else digits
next_digit b seen = seen

abbrev is_zero_first : Seen → Bool
is_zero_first zero_first = true
is_zero_first _ = false

-- One pass: brackets outside strings nest at most 32 deep, and there is no minus sign, no number with
-- a leading zero and none with a fraction or an exponent outside strings.
unfoldable pub lexical : Bool → Bool → ℕ → Seen → List ℕ → Bool
lexical quoted escaped depth seen [] = true
lexical true escaped depth seen (b ∷ bs) =
    if escaped
    then lexical true false depth outside bs
    else if b == b'\\'
    then lexical true true depth outside bs
    else lexical (b /= b'"') false depth outside bs
lexical false escaped depth seen (b ∷ bs) =
    if is_digit b
    then not (is_zero_first seen) && lexical false escaped depth (next_digit b seen) bs
    else if in_number seen && (b == b'.' || b == b'e' || b == b'E')
    then false
    else if b == b'"'
    then lexical true escaped depth outside bs
    else if b == b'{' || b == b'['
    then not (ltb 32 (depth + 1)) && lexical false escaped (depth + 1) outside bs
    else if b == b'}' || b == b']'
    then lexical false escaped (depth - 1) outside bs
    else not (b == b'-') && lexical false escaped depth outside bs

module _ (e : Bool) (d : ℕ) where
  lexical-digits :
      (bs : List ℕ)
      → lexical false e d digits bs
        ≡ not (starts_fraction (skip_digits bs)) && lexical false e d outside (skip_digits bs)
  unfolding lexical skip_digits
  lexical-digits [] = refl
  lexical-digits (b ∷ bs) = ground (arith, lexical-digits bs)

  lexical-zero_first :
      (bs : List ℕ)
      → lexical false e d zero_first bs
        ≡ not (ltb (length (skip_digits bs)) (length bs))
          && (not (starts_fraction (skip_digits bs)) && lexical false e d outside (skip_digits bs))
  unfolding lexical skip_digits
  lexical-zero_first [] = refl
  lexical-zero_first (b ∷ bs) = ground (arith, length-skip_digits bs)

-- With fuel for the bytes that are left, the scan lets a text through exactly if the automaton does.
pub scan-lexical :
    (fuel : ℕ) (q e : Bool) (d : ℕ) (bs : List ℕ)
    → length bs ≤ fuel
    → is_clean (scan fuel q e d bs) ≡ lexical q e d outside bs
unfolding scan lexical
scan-lexical fuel q e d [] h = refl
scan-lexical zero q e d (b ∷ bs) h = absurd (omega arith)
scan-lexical (suc fuel) true e d (b ∷ bs) h = ground (
  arith,
  scan-lexical fuel true false d bs,
  scan-lexical fuel true true d bs,
  scan-lexical fuel (b /= b'"') false d bs,
)
scan-lexical (suc fuel) false e d (b ∷ bs) h = elim (Bool-cases (is_digit b)) [
  | inl digit ↦ ground (
    arith,
    digit,
    scan-lexical fuel false e d (skip_digits bs),
    length-skip_digits bs,
    lexical-digits e d bs,
    lexical-zero_first e d bs,
  )
  | inr other ↦ ground (
    arith,
    other,
    scan-lexical fuel true e d bs,
    scan-lexical fuel false e (d + 1) bs,
    scan-lexical fuel false e (d - 1) bs,
    scan-lexical fuel false e d bs,
  )
]
