-- ===== src/Config/AdminPath.antt =====
-- The path of the administration: ValidateAdminPath and GenerateRandomAdminPath.
pub mod Valid
use axmi_pusher.Base.{
  ℕ, Text, Bool, Option, List, [], ◌∷◌, true, false, none, some, inl, inr, ◌⊎◌, if◌then◌else◌, ◌==◌,
  ◌&&◌, ◌||◌, ◌+◌, ◌%◌, not, nat_eq, text_eq, leb, ltb, length, map,
}
use mathlib.Core.List.{reverse}
use axmi_pusher.Base.Keys.{codes}
use axmi_pusher.Compat.{trim_space}

pub data PathError : Type 0 where
  empty_path bad_characters reserved_path : PathError

abbrev pub is_alnum : ℕ → Bool
is_alnum c = (leb 48 c && leb c 57) || (leb 65 c && leb c 90) || (leb 97 c && leb c 122)

abbrev pub all_alnum : Text → Bool
all_alnum [] = true
all_alnum (c ∷ s) = is_alnum c && all_alnum s

-- adminPathRe
abbrev pub matches_path : Text → Bool
matches_path p = leb 8 (length p) && leb (length p) 32 && all_alnum p

-- The lower case of an ASCII letter: only these are left when it is used.
abbrev pub lower_letter : ℕ → ℕ
lower_letter c = if leb 65 c && leb c 90 then c + 32 else c

-- adminPathReserved
abbrev pub reserved : List Text
reserved = codes "api" ∷ codes "install" ∷ codes "assets" ∷ codes "login" ∷ codes "register" ∷ []

abbrev pub is_among : Text → List Text → Bool
is_among p [] = false
is_among p (r ∷ rs) = p == r || is_among p rs

unfoldable pub drop_slashes : Text → Text
drop_slashes [] = []
drop_slashes (c ∷ s) = let rest = drop_slashes s in if c == b'/' then rest else c ∷ s

-- strings.Trim(p, "/")
unfoldable pub trim_both : Text → Text
trim_both p = reverse (drop_slashes (reverse (drop_slashes p)))

unfoldable pub checked_path : Text → PathError ⊎ Text
checked_path p =
    if p == []
    then inl empty_path
    else (if not (matches_path p)
        then inl bad_characters
        else (if is_among (map lower_letter p) reserved then inl reserved_path else inr p))

-- ValidateAdminPath
unfoldable pub validate_admin_path : Text → PathError ⊎ Text
validate_admin_path p = checked_path (trim_space (trim_both p))

-- The characters that a random path is made of.
abbrev pub path_chars : Text
path_chars = codes "abcdefghijklmnopqrstuvwxyzABCDEFGHIJKLMNOPQRSTUVWXYZ0123456789"

abbrev pub char_at : ℕ → Text → ℕ
char_at n [] = 0
char_at ℕ.zero (c ∷ s) = c
char_at (ℕ.suc n) (c ∷ s) = char_at n s

-- GenerateRandomAdminPath, with the bytes that crypto/rand gives, if it gives any.
unfoldable pub generate_admin_path : Option (List ℕ) → Option Text
generate_admin_path none = none
generate_admin_path (some bytes) =
    some (map (λ b. char_at (b % length path_chars) path_chars) bytes)
