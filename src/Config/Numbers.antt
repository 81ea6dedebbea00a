-- ===== src/Config/Numbers.antt =====
-- The numbers in the environment: strconv.Atoi and the `%d` of fmt.Sscanf, of 64 bits.
use axmi_pusher.Base.{
  ℕ, Text, Bool, Option, [], ◌∷◌, true, false, none, some, if◌then◌else◌, ◌==◌, ◌&&◌, ◌-◌, ◌^◌,
  nat_eq, text_eq, ltb, leb,
}
use axmi_pusher.Base.Int.{ℤ, pos, negsuc}
use axmi_pusher.Base.Keys.{read_digits}
use axmi_pusher.Service.Messages.{is_blank}

-- A number below 2^63, or one that is at least -2^63.
unfoldable pub signed : Bool → ℕ → Option ℤ
signed false n = if ltb n (2 ^ 63) then some (pos n) else none
signed true n =
    if n == 0 then some (pos 0) else (if leb n (2 ^ 63) then some (negsuc (n - 1)) else none)

abbrev pub is_digit : ℕ → Bool
is_digit c = leb 48 c && leb c 57

-- A sign, if there is one, and what stands behind it.
unfoldable pub sign_of : Text → Bool × Text
sign_of [] = (false, [])
sign_of (c ∷ s) =
    if c == b'-' then (true, s) else (if c == b'+' then (false, s) else (false, c ∷ s))

-- The number that a text starts with, and the rest.
unfoldable pub number_at : Bool → Text → Option (ℤ × Text)
number_at negative [] = none
number_at negative (c ∷ s) =
    if is_digit c
    then (let (n, rest) = read_digits 0 (c ∷ s) in
        elim (signed negative n) [ none ↦ none | some i ↦ some (i, rest) ])
    else none

-- strconv.Atoi
unfoldable pub atoi : Text → Option ℤ
atoi s =
    let (negative, digits) = sign_of s in
    elim (number_at negative digits) [
      | none ↦ none
      | some (i, rest) ↦ if rest == [] then some i else none
    ]

-- The blanks that Sscanf passes over; a line end among them is an error.
unfoldable pub pass_blanks : Text → Option Text
pass_blanks [] = some []
pass_blanks (c ∷ s) =
    let rest = pass_blanks s in
    if c == 10 then none else (if is_blank c then rest else some (c ∷ s))

-- fmt.Sscanf with "%d": what follows the number is left unread.
unfoldable pub scan_int : Text → Option ℤ
scan_int s = elim (pass_blanks s) [
  | none ↦ none
  | some t ↦
      let (negative, digits) = sign_of t in
      elim (number_at negative digits) [ none ↦ none | some (i, rest) ↦ some i ]
]
