-- ===== src/Service/Template.antt =====
-- internal/service/message.go: renderTemplate and the regular expression of its variables.
pub mod Pieces
use axmi_pusher.Base.Assoc.{lookup, Assoc}
use axmi_pusher.Base.{
  zero, ◌>>=◌, ◌-◌, length, ◌++◌, text_eq, nat_eq, [], some, ◌==◌, none, leb, if◌then◌else◌, Bool,
  ◌∷◌, Option, suc, Text, ℕ, ◌&&◌, ◌||◌,
}

-- \s
abbrev pub is_space : ℕ → Bool
is_space c = c == 9 || c == 10 || c == 12 || c == 13 || c == 32

-- [a-zA-Z0-9_]
abbrev pub is_word : ℕ → Bool
is_word c =
    (leb b'a' c && leb c b'z')
    || (leb b'A' c && leb c b'Z')
    || (leb b'0' c && leb c b'9')
    || c == b'_'

-- \s*
unfoldable pub skip_spaces : Text → Text
skip_spaces [] = []
skip_spaces (c ∷ s) = let rest = skip_spaces s in if is_space c then rest else c ∷ s

-- [a-zA-Z0-9_]*, with what follows it
unfoldable pub take_word : Text → Text × Text
take_word [] = ([], [])
take_word (c ∷ s) = let (w, rest) = take_word s in if is_word c then (c ∷ w, rest) else ([], c ∷ s)

unfoldable pub expect : ℕ → Text → Option Text
expect c [] = none
expect c (d ∷ s) = if c == d then some s else none

-- A match of templateVarRe at the start of a text: the name in it, and what follows it. No two
-- neighbours in the expression share a character, so a greedy match never goes back.
unfoldable pub match_var : Text → Option (Text × Text)
unfolding skip_spaces take_word expect
match_var t = do
  s ← expect b'{' t
  s' ← expect b'{' s
  let (name, r) = take_word (skip_spaces s')
  r' ← expect b'}' (skip_spaces r)
  r'' ← expect b'}' r'
  elim name [ [] ↦ none | c ∷ w ↦ some (c ∷ w, r'') ]

-- params[key], or nothing
abbrev pub value_of : Assoc Text Text → Text → Text
value_of params name = elim (lookup name params) [ none ↦ [] | some v ↦ v ]

-- ReplaceAllStringFunc, with the number of code points that the last match still covers.
unfoldable pub render_from : Assoc Text Text → ℕ → Text → Text
render_from params skip [] = []
render_from params (suc n) (c ∷ s) = render_from params n s
render_from params zero (c ∷ s) = elim (match_var (c ∷ s)) [
  | none ↦ c ∷ render_from params 0 s
  | some (name, rest) ↦ value_of params name ++ render_from params (length s - length rest) s
]

unfoldable pub render_template : Assoc Text Text → Text → Text
render_template params tpl = render_from params 0 tpl
