-- ===== src/Prelude/Tests.antt =====
-- Boolean tests on native numbers and texts, the conditional, and equality as an interface.
use Prim.Native.Nat.{ℕ, compare, Ordering}
use Prim.Native.String.{String, compare as compare_text}
use mathlib.Core.Path.{◌≡◌, refl}
use mathlib.Core.Logic.{◌↔◌, ◌⊎◌, inl, inr}
use mathlib.Core.Bool.{Bool, true, false, ◌&&◌, not}
use mathlib.Core.Option.{Option, none, some}
use native.Mathlib.Omega.{arith}
use text.Mathlib.Text.{◌==◌ as text_beq}
use text.Mathlib.TextEquality.{eq_iff}

abbrev pub ltb : ℕ → ℕ → Bool
ltb a b = elim (compare a b) [ Ordering.lt ↦ true | _ ↦ false ]

abbrev pub leb : ℕ → ℕ → Bool
leb a b = elim (compare a b) [ Ordering.gt ↦ false | _ ↦ true ]

abbrev nat_beq : ℕ → ℕ → Bool
nat_beq a b = elim (compare a b) [ Ordering.eq ↦ true | _ ↦ false ]

pub nat_beq_iff : (a b : ℕ) → (nat_beq a b ≡ true) ↔ (a ≡ b)
nat_beq_iff a b = ground arith

-- Byte order of UTF-8, which is the order of code points: `Ord` of `str`.
abbrev pub text_ltb : String → String → Bool
text_ltb a b = elim (compare_text a b) [ Ordering.lt ↦ true | _ ↦ false ]

infix 1 if◌then◌else◌
abbrev pub if◌then◌else◌ {ℓ} : {A : Type ℓ} → Bool → A → A → A
if true then x else y = x
if false then x else y = y

abbrev pub is_some {ℓ} : {A : Type ℓ} → Option A → Bool
is_some none = false
is_some (some a) = true

abbrev pub is_none {ℓ} : {A : Type ℓ} → Option A → Bool
is_none none = true
is_none (some a) = false

pub record Equality {ℓ} (A : Type ℓ) : Type ℓ where
  pub same : A → A → Bool
  pub decides : {x y : A} → (same x y ≡ true) ↔ (x ≡ y)

module _ {ℓ} {A : Type ℓ} ⦃e : Equality A⦄ where
  infix 50 ◌==◌ ◌/=◌
  abbrev pub ◌==◌ : A → A → Bool
  x == y = e.same x y

  abbrev pub ◌/=◌ : A → A → Bool
  x /= y = not (e.same x y)

instance abbrev pub nat_eq : Equality ℕ
nat_eq = record { same = nat_beq; decides = nat_beq_iff _ _ }

abbrev bool_beq : Bool → Bool → Bool
bool_beq true c = c
bool_beq false c = not c

pub bool_beq_iff : (b c : Bool) → (bool_beq b c ≡ true) ↔ (b ≡ c)
bool_beq_iff b c = ground arith

instance abbrev pub bool_eq : Equality Bool
bool_eq = record { same = bool_beq; decides = bool_beq_iff _ _ }

instance abbrev pub text_eq : Equality String
text_eq = record { same = text_beq; decides = eq_iff _ _ }

module _ {ℓ} {A : Type ℓ} ⦃e : Equality A⦄ where
  abbrev option_beq : Option A → Option A → Bool
  option_beq none none = true
  option_beq none (some b) = false
  option_beq (some a) none = false
  option_beq (some a) (some b) = a == b

  pub option_beq_iff : (a b : Option A) → (option_beq a b ≡ true) ↔ (a ≡ b)
  option_beq_iff none none = (λ h. refl, λ h. refl)
  option_beq_iff none (some b) = (λ h. cc, λ h. cc)
  option_beq_iff (some a) none = (λ h. cc, λ h. cc)
  option_beq_iff (some a) (some b) =
      (λ h. cc ((e.decides {x = a} {y = b}).0 h), λ h. (e.decides {x = a} {y = b}).1 (ground arith))

  instance abbrev pub option_eq : Equality (Option A)
  option_eq = record { same = option_beq; decides = option_beq_iff _ _ }

module _ {ℓ} {A B : Type ℓ} ⦃e : Equality A⦄ ⦃f : Equality B⦄ where
  abbrev pair_beq : A × B → A × B → Bool
  pair_beq (a, b) (a', b') = e.same a a' && f.same b b'

  pub pair_beq_iff : (x y : A × B) → (pair_beq x y ≡ true) ↔ (x ≡ y)
  pair_beq_iff (a, b) (a', b') = (
    λ h. ground (arith, e.decides {x = a} {y = a'}, f.decides {x = b} {y = b'}),
    λ h. ground (arith, e.decides {x = a} {y = a'}, f.decides {x = b} {y = b'}),
  )

  instance abbrev pub pair_eq : Equality (A × B)
  pair_eq = record { same = pair_beq; decides = pair_beq_iff _ _ }

-- To split on a computed value and keep the equation.
pub Bool-cases : (b : Bool) → (b ≡ true) ⊎ (b ≡ false)
Bool-cases true = inl refl
Bool-cases false = inr refl

pub Option-cases {ℓ} : {A : Type ℓ} (o : Option A) → (o ≡ none) ⊎ ((a : A) × (o ≡ some a))
Option-cases none = inl refl
Option-cases (some a) = inr (a, refl)

-- Both halves of a test that holds.
pub and-eq_true : (b c : Bool) → (b && c) ≡ true → (b ≡ true) × (c ≡ true)
and-eq_true true c h = (refl, h)
and-eq_true false c h = cc

module _ {ℓ} {A : Type ℓ} ⦃e : Equality A⦄ where
  pub ==_iff : (x y : A) → ((x == y) ≡ true) ↔ (x ≡ y)
  ==_iff x y = e.decides {x = x} {y = y}

  pub beq_self : (x : A) → (x == x) ≡ true
  beq_self x = (e.decides {x = x} {y = x}).1 refl

  pub beq_comm : (x y : A) → (x == y) ≡ (y == x)
  beq_comm x y = ground (arith, e.decides {x = x} {y = y}, e.decides {x = y} {y = x})
