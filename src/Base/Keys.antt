-- ===== src/Base/Keys.antt =====
-- The text of a number in base ten, and why a key that starts with it names one tenant.
use Prim.Native.Nat.{ℕ, zero, suc, ◌+◌, ◌-◌, ◌*◌, ◌/◌, ◌%◌, ◌<◌}
use Prim.Native.Char.{code}
use Prim.Native.String.{String}
use mathlib.Core.Path.{◌≡◌, refl, ap, sym, ◌∙◌}
use mathlib.Core.List.{[], ◌∷◌, ◌++◌}
use mathlib.Core.Bool.{◌&&◌}
use mathlib.Core.Logic.{inl, inr}
use native.Mathlib.Omega.{arith}
use text.Mathlib.TextEquality.{Char-path}
use axmi_pusher.Base.Tests.{Text, if◌then◌else◌, ltb, leb, Bool-cases}

-- The code points of a literal or a name.
abbrev pub codes : String → Text
codes String.[] = []
codes (String.◌∷◌ c s) = code c ∷ codes s

pub codes_inj : (s t : String) → codes s ≡ codes t → s ≡ t
codes_inj String.[] String.[] h = refl
codes_inj String.[] (String.◌∷◌ c t) h = cc
codes_inj (String.◌∷◌ c s) String.[] h = cc
codes_inj (String.◌∷◌ c s) (String.◌∷◌ d t) h =
    ap₂ (Char-path c d (ap head h)) (codes_inj s t (ap tail h))
  where
    head : Text → ℕ
    head [] = 0
    head (x ∷ xs) = x

    tail : Text → Text
    tail [] = []
    tail (x ∷ xs) = xs

    ap₂ : c ≡ d → s ≡ t → Prim.Native.String.◌∷◌ c s ≡ Prim.Native.String.◌∷◌ d t
    ap₂ p q = λ i. Prim.Native.String.◌∷◌ (p i) (q i)

-- The `%d` of a number: its last digit is put before what stands behind it already.
digits_before : ℕ → ℕ → Text → Text
digits_before zero n acc = acc
digits_before (suc f) n acc =
    let rest = digits_before f (n / 10) ((48 + n % 10) ∷ acc) in
    if ltb n 10 then (48 + n) ∷ acc else rest

unfoldable pub decimal : ℕ → Text
unfolding digits_before
decimal n = digits_before (suc n) n []

-- Reads digits up to the first other character.
unfoldable pub read_digits : ℕ → Text → ℕ × Text
read_digits n [] = (n, [])
read_digits n (c ∷ s) =
    let rest = read_digits (n * 10 + (c - 48)) s in
    if leb 48 c && leb c 57 then rest else (n, c ∷ s)

read_digits-digits_before :
    (f n : ℕ) (acc t : Text)
    → n < f
    → read_digits 0 (digits_before f n acc ++ t) ≡ read_digits n (acc ++ t)
unfolding read_digits digits_before
read_digits-digits_before zero n acc t h = absurd (omega arith)
read_digits-digits_before (suc f) n acc t h = elim (Bool-cases (ltb n 10)) [
  | inl small ↦ rw small (ground arith)
  | inr large ↦ rw large (
      rw (read_digits-digits_before f (n / 10) ((48 + n % 10) ∷ acc) t (ground arith))
        (ground arith))
]

read_digits-decimal : (n : ℕ) (r : Text) → read_digits 0 (decimal n ++ b':' ∷ r) ≡ (n, b':' ∷ r)
unfolding decimal read_digits
read_digits-decimal n r = read_digits-digits_before (suc n) n [] (b':' ∷ r) (omega arith)

-- A number, a colon and a text: the key of a map or of Redis for one tenant.
unfoldable pub tenant_key : ℕ → String → Text
tenant_key tenant name = decimal tenant ++ (b':' ∷ codes name)

text_tail : Text → Text
text_tail [] = []
text_tail (c ∷ s) = s

pub tenant_key_inj : (t u : ℕ) (a b : String) → tenant_key t a ≡ tenant_key u b → (t ≡ u) × (a ≡ b)
unfolding tenant_key text_tail
tenant_key_inj t u a b h =
    (ap (λ (p : ℕ × Text). p.0) same, codes_inj a b (ap (λ (p : ℕ × Text). text_tail p.1) same))
  where
    same : ◌≡◌ {A = ℕ × Text} (t, b':' ∷ codes a) (u, b':' ∷ codes b)
    same =
        sym (read_digits-decimal t (codes a))
        ∙ ap (read_digits 0) h
        ∙ read_digits-decimal u (codes b)
