-- ===== src/Base/Tests.antt =====
-- Boolean tests on numbers and texts, the conditional, and splits on a computed value.
use Prim.Native.Nat.{ℕ, ◌≤◌, ◌<◌, compare, Ordering}
use Prim.Native.String.{String}
use mathlib.Core.Path.{◌≡◌, refl, ap}
use mathlib.Core.Logic.{◌↔◌, ◌⊎◌, inl, inr}
use mathlib.Core.Bool.{Bool, true, false, ◌&&◌}
use mathlib.Core.Option.{Option, none, some}
use mathlib.Core.List.{List, [], ◌∷◌}
use native.Mathlib.Omega.{arith}
use text.Mathlib.Text.{◌==◌ as string_beq}
use text.Mathlib.TextEquality.{eq_iff}

abbrev pub ltb : ℕ → ℕ → Bool
ltb a b = elim (compare a b) [ Ordering.lt ↦ true | _ ↦ false ]

abbrev pub leb : ℕ → ℕ → Bool
leb a b = elim (compare a b) [ Ordering.gt ↦ false | _ ↦ true ]

abbrev pub nat_beq : ℕ → ℕ → Bool
nat_beq a b = elim (compare a b) [ Ordering.eq ↦ true | _ ↦ false ]

infix 1 if◌then◌else◌
abbrev pub if◌then◌else◌ {ℓ} : {A : Type ℓ} → Bool → A → A → A
if true then x else y = x
if false then x else y = y

pub ltb→lt : (a b : ℕ) → ltb a b ≡ true → a < b
ltb→lt a b h = ground arith

pub lt→ltb : (a b : ℕ) → a < b → ltb a b ≡ true
lt→ltb a b h = ground arith

pub leb→le : (a b : ℕ) → leb a b ≡ true → a ≤ b
leb→le a b h = ground arith

pub le→leb : (a b : ℕ) → a ≤ b → leb a b ≡ true
le→leb a b h = ground arith

pub nat_beq_iff : (a b : ℕ) → (nat_beq a b ≡ true) ↔ (a ≡ b)
nat_beq_iff a b = ground arith

pub Bool-cases : (b : Bool) → (b ≡ true) ⊎ (b ≡ false)
Bool-cases true = inl refl
Bool-cases false = inr refl

pub Option-cases {ℓ} : {A : Type ℓ} (o : Option A) → (o ≡ none) ⊎ ((a : A) × (o ≡ some a))
Option-cases none = inl refl
Option-cases (some a) = inr (a, refl)

abbrev pub is_some {ℓ} : {A : Type ℓ} → Option A → Bool
is_some none = false
is_some (some a) = true

-- Equality as an interface: one operator for numbers, texts and lists of code points.
pub record Eq {ℓ} (A : Type ℓ) : Type ℓ where
  pub beq : A → A → Bool
  pub beq_iff : (x y : A) → (beq x y ≡ true) ↔ (x ≡ y)

infix 50 ◌==◌
abbrev pub ◌==◌ {ℓ} : {A : Type ℓ} ⦃eq : Eq A⦄ → A → A → Bool
◌==◌ ⦃eq⦄ = eq.beq

instance abbrev pub nat_eq : Eq ℕ
nat_eq = record { beq_iff = nat_beq_iff; beq = nat_beq }

instance abbrev pub string_eq : Eq String
string_eq = record { beq = string_beq; beq_iff = eq_iff }

-- A text that the program walks: its code points.
abbrev pub Text : Type 0
Text = List ℕ

unfoldable pub text_beq : Text → Text → Bool
text_beq [] [] = true
text_beq [] (d ∷ t) = false
text_beq (c ∷ s) [] = false
text_beq (c ∷ s) (d ∷ t) = let rest = text_beq s t in if nat_beq c d then rest else false

text_beq_sound : (s t : Text) → text_beq s t ≡ true → s ≡ t
unfolding text_beq
text_beq_sound [] [] h = refl
text_beq_sound [] (d ∷ t) h = cc
text_beq_sound (c ∷ s) [] h = cc
text_beq_sound (c ∷ s) (d ∷ t) h = ground (arith, text_beq_sound s t)

text_beq_self : (s : Text) → text_beq s s ≡ true
unfolding text_beq
text_beq_self [] = refl
text_beq_self (c ∷ s) = ground (arith, text_beq_self s)

pub text_beq_iff : (s t : Text) → (text_beq s t ≡ true) ↔ (s ≡ t)
text_beq_iff s t = (text_beq_sound s t, λ e. rw e (text_beq_self t))

instance abbrev pub text_eq : Eq Text
text_eq = record { beq = text_beq; beq_iff = text_beq_iff }

-- The test that a decision gives.
abbrev pub holds {ℓ} : {A : Type ℓ} → Dec A → Bool
holds (yes a) = true
holds (no n) = false

pub holds_iff {ℓ} : {A : Type ℓ} (d : Dec A) → (holds d ≡ true) ↔ A
holds_iff (yes a) = (λ _. a, λ _. refl)
holds_iff (no n) = (λ h. cc, λ a. absurd (n a))

abbrev pub eq_of_discrete {ℓ} : {A : Type ℓ} → Discrete A → Eq A
eq_of_discrete d = record { beq = λ a b. holds (d a b); beq_iff = λ a b. holds_iff (d a b) }

pub pair_iff {ℓ} :
    {A B : Type ℓ} {a c : A} {b d : B} {x y : Bool}
    → (x ≡ true) ↔ (a ≡ c)
    → (y ≡ true) ↔ (b ≡ d)
    → ((x && y) ≡ true) ↔ ◌≡◌ {A = A × B} (a, b) (c, d)
pair_iff {x} {y} f g = (
  λ h. let p = f.0 (ground arith) in let q = g.0 (ground arith) in λ i. (p i, q i),
  λ e. both (f.1 (ap (λ t. t.0) e)) (g.1 (ap (λ t. t.1) e)),
)
  where
    both : x ≡ true → y ≡ true → (x && y) ≡ true
    both p q = ground arith

-- Pairs compare by their parts.
instance abbrev pub pair_eq {ℓ} : {A B : Type ℓ} ⦃d : Eq A⦄ ⦃e : Eq B⦄ → Eq (A × B)
pair_eq ⦃d⦄ ⦃e⦄ = record {
  beq = λ p q. d.beq p.0 q.0 && e.beq p.1 q.1;
  beq_iff = λ p q. pair_iff (d.beq_iff p.0 q.0) (e.beq_iff p.1 q.1);
}
