-- ===== src/Config/AdminPath/Valid.antt =====
-- A random path is a valid one, and a validated path stays as it is.
use axmi_pusher.Base.{
  ℕ, Text, List, [], ◌∷◌, ◌++◌, true, false, some, inr, ◌≡◌, refl, arith, ◌==◌, ◌%◌, ◌<◌, nat_eq,
  text_eq, length, map, zero, suc, text_beq, ap, ◌∙◌,
}
use mathlib.Core.List.{reverse, reverse_aux, reverse-reverse}
use mathlib.Core.Path.{subst}
use axmi_pusher.Base.Keys.{codes}
use axmi_pusher.Compat.{trim_space, trim_left}
use axmi_pusher.Config.AdminPath.{
  is_alnum, all_alnum, lower_letter, reserved, is_among, drop_slashes, trim_both, checked_path,
  validate_admin_path, path_chars, char_at, generate_admin_path,
}

drop_slashes-alnum : (s : Text) → all_alnum s ≡ true → drop_slashes s ≡ s
unfolding drop_slashes
drop_slashes-alnum [] h = refl
drop_slashes-alnum (c ∷ s) h = ground arith

trim_left-alnum : (s : Text) → all_alnum s ≡ true → trim_left s ≡ s
unfolding trim_left
trim_left-alnum [] h = refl
trim_left-alnum (c ∷ s) h = ground arith

all_alnum-append :
    (s t : Text) → all_alnum s ≡ true → all_alnum t ≡ true → all_alnum (s ++ t) ≡ true
all_alnum-append [] t h g = g
all_alnum-append (c ∷ s) t h g = ground (arith, all_alnum-append s t)

all_alnum-reverse_aux :
    (s t : Text) → all_alnum s ≡ true → all_alnum t ≡ true → all_alnum (reverse_aux s t) ≡ true
all_alnum-reverse_aux [] t h g = g
all_alnum-reverse_aux (c ∷ s) t h g = all_alnum-reverse_aux s (c ∷ t) (ground arith) (ground arith)

module _ (p : Text) (h : all_alnum p ≡ true) where
  pub trim_both-alnum : trim_both p ≡ p
  unfolding trim_both
  trim_both-alnum =
      rw
        (drop_slashes-alnum p h, drop_slashes-alnum (reverse p) (all_alnum-reverse_aux p [] h refl))
        (reverse-reverse p)

  trim_space-alnum : trim_space p ≡ p
  unfolding trim_space
  trim_space-alnum =
      rw (trim_left-alnum p h, trim_left-alnum (reverse p) (all_alnum-reverse_aux p [] h refl))
        (reverse-reverse p)

-- A text that is accepted is one of letters and digits, and so accepted again as it is.
checked_path-alnum : (p q : Text) → checked_path p ≡ inr q → (all_alnum p ≡ true) × (p ≡ q)
unfolding checked_path
checked_path-alnum p q h = ground arith

checked-again : (p q : Text) → checked_path p ≡ inr q → validate_admin_path q ≡ inr q
unfolding validate_admin_path
checked-again p q h =
    let (alnum, same) = checked_path-alnum p q h in
    let alnum' : all_alnum q ≡ true = subst (λ x. all_alnum x ≡ true) same alnum in
    rw (trim_both-alnum q alnum', trim_space-alnum q alnum')
      (subst (λ x. checked_path x ≡ inr q) same h)

pub validated-alnum :
    (s p : Text) → validate_admin_path s ≡ inr p → (all_alnum p ≡ true) × ((p == []) ≡ false)
unfolding validate_admin_path checked_path
validated-alnum s p h = ground arith

-- A path that ValidateAdminPath has returned is returned again as it is.
pub validate_admin_path-again :
    (s p : Text) → validate_admin_path s ≡ inr p → validate_admin_path p ≡ inr p
validate_admin_path-again s p h =
    checked-again (trim_space (trim_both s)) p (unfold validate_admin_path in h)

char_at-alnum :
    (n : ℕ) (s : Text) → all_alnum s ≡ true → n < length s → is_alnum (char_at n s) ≡ true
char_at-alnum n [] h g = absurd (omega arith)
char_at-alnum zero (c ∷ s) h g = ground arith
char_at-alnum (suc n) (c ∷ s) h g = char_at-alnum n s (ground arith) (omega arith)

abbrev path_char : ℕ → ℕ
path_char b = char_at (b % length path_chars) path_chars

path_chars-alnum : (bytes : List ℕ) → all_alnum (map path_char bytes) ≡ true
path_chars-alnum [] = refl
path_chars-alnum (b ∷ bytes) =
    let here = char_at-alnum (b % 62) path_chars refl (omega arith) in
    rw here (path_chars-alnum bytes)

length-map : (f : ℕ → ℕ) (s : List ℕ) → length (map f s) ≡ length s
length-map f [] = refl
length-map f (c ∷ s) = ap suc (length-map f s)

shorter-ne : (s t : Text) → length t < length s → (s == t) ≡ false
unfolding text_beq
shorter-ne [] t h = absurd (omega arith)
shorter-ne (c ∷ s) [] h = refl
shorter-ne (c ∷ s) (d ∷ t) h = ground (arith, shorter-ne s t)

-- No reserved word has more than eight letters.
long-not-reserved : (p : Text) → 8 < length p → is_among p reserved ≡ false
long-not-reserved p h =
    rw
      (
        shorter-ne p (codes "api") (omega arith),
        shorter-ne p (codes "install") (omega arith),
        shorter-ne p (codes "assets") (omega arith),
        shorter-ne p (codes "login") (omega arith),
        shorter-ne p (codes "register") (omega arith),
      )
      refl

checked_path-long : (p : Text) → length p ≡ 16 → all_alnum p ≡ true → checked_path p ≡ inr p
unfolding checked_path
checked_path-long p h alnum =
    let free =
      long-not-reserved (map lower_letter p) (omega (arith, length-map lower_letter p, h)) in
    let some_text = shorter-ne p [] (omega (arith, h)) in rw (some_text, free, alnum, h) refl

-- The path that GenerateRandomAdminPath makes of its 16 random bytes passes ValidateAdminPath as it
-- is: it is made of letters and digits, long enough, and no reserved word.
pub generate_admin_path-valid :
    (bytes : List ℕ) (p : Text)
    → length bytes ≡ 16
    → generate_admin_path (some bytes) ≡ some p
    → validate_admin_path p ≡ inr p
unfolding generate_admin_path
generate_admin_path-valid bytes p h made =
    let same : map path_char bytes ≡ p = cc in
    checked-again (map path_char bytes) p (
      checked_path-long (map path_char bytes) (length-map path_char bytes ∙ h)
        (path_chars-alnum bytes)
      ∙ ap inr same)
