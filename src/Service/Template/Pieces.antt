-- ===== src/Service/Template/Pieces.antt =====
-- What a template renders to, described by the pieces that it is made of.
use axmi_pusher.Base.Assoc.{Assoc}
use mathlib.Core.List.{append_assoc}
use axmi_pusher.Base.{
  sym, length-append, ◌∙◌, ◌-◌, nat_eq, arith, none, true, some, ap, refl, false, length, ◌∷◌, ◌≡◌,
  ◌++◌, [], ℕ, List, Text, ◌==◌, All,
}
use axmi_pusher.Service.Template.{
  Assoc, is_space, is_word, skip_spaces, take_word, expect, match_var, value_of, render_from,
  render_template,
}

-- A character that stands for itself, or a variable: its name is a character and more, with white
-- space on either side.
pub data Piece : Type 0 where
  literal : ℕ → Piece
  variable : Text → ℕ → Text → Text → Piece

closing : Text → Text
closing s = b'}' ∷ b'}' ∷ s

-- What stands in the braces, and after them.
after_braces : Text → ℕ → Text → Text → Text → Text
after_braces before c w after s = before ++ ((c ∷ w) ++ (after ++ closing s))

unfoldable pub print : List Piece → Text
unfolding after_braces closing
print [] = []
print (literal c ∷ ps) = c ∷ print ps
print (variable before c w after ∷ ps) = b'{' ∷ b'{' ∷ after_braces before c w after (print ps)

-- A literal is no opening brace; a name is made of letters, digits and underscores.
unfoldable pub IsPiece : Piece → Type 0
IsPiece (literal c) = (c == b'{') ≡ false
IsPiece (variable before c w after) =
    All (λ d. is_space d ≡ true) before
    × (All (λ d. is_word d ≡ true) (c ∷ w) × All (λ d. is_space d ≡ true) after)

unfoldable pub meaning : Assoc Text Text → List Piece → Text
meaning params [] = []
meaning params (literal c ∷ ps) = c ∷ meaning params ps
meaning params (variable before c w after ∷ ps) = value_of params (c ∷ w) ++ meaning params ps

word_no_space : (c : ℕ) → is_word c ≡ true → is_space c ≡ false
word_no_space c h = ground arith

space_no_word : (c : ℕ) → is_space c ≡ true → is_word c ≡ false
space_no_word c h = ground arith

skip_spaces-append :
    (ws : Text) (c : ℕ) (s : Text)
    → All (λ d. is_space d ≡ true) ws
    → is_space c ≡ false
    → skip_spaces (ws ++ (c ∷ s)) ≡ c ∷ s
unfolding skip_spaces
skip_spaces-append [] c s h n = rw n refl
skip_spaces-append (d ∷ ws) c s h n = rw (h.0) (skip_spaces-append ws c s h.1 n)

take_word-append :
    (w : Text) (c : ℕ) (s : Text)
    → All (λ d. is_word d ≡ true) w
    → is_word c ≡ false
    → take_word (w ++ (c ∷ s)) ≡ (w, c ∷ s)
unfolding take_word
take_word-append [] c s h n = rw n refl
take_word-append (d ∷ w) c s h n = rw (take_word-append w c s h.1 n, h.0) refl

take_word-spaces :
    (w after s : Text)
    → All (λ d. is_word d ≡ true) w
    → All (λ d. is_space d ≡ true) after
    → take_word (w ++ (after ++ closing s)) ≡ (w, after ++ closing s)
unfolding closing
take_word-spaces w [] s h n = take_word-append w b'}' (b'}' ∷ s) h refl
take_word-spaces w (d ∷ after) s h n =
    take_word-append w d (after ++ closing s) h (space_no_word d n.0)

match_var-print :
    (before : Text) (c : ℕ) (w after s : Text)
    → IsPiece (variable before c w after)
    → match_var (b'{' ∷ b'{' ∷ after_braces before c w after s) ≡ some (c ∷ w, s)
unfolding match_var expect IsPiece after_braces closing
match_var-print before c w after s h =
    rw
      (
        skip_spaces-append before c (w ++ (after ++ closing s)) h.0 (word_no_space c h.1.0.0),
        take_word-spaces (c ∷ w) after s h.1.0 h.1.1,
        skip_spaces-append after b'}' (b'}' ∷ s) h.1.1 refl,
      )
      refl

match_var-literal : (c : ℕ) (s : Text) → (c == b'{') ≡ false → match_var (c ∷ s) ≡ none
unfolding match_var expect
match_var-literal c s h = ground arith

render_from-skip :
    (params : Assoc Text Text) (xs s : Text)
    → render_from params (length xs) (xs ++ s) ≡ render_from params 0 s
unfolding render_from
render_from-skip params [] s = refl
render_from-skip params (x ∷ xs) s = render_from-skip params xs s

render_from-none :
    (params : Assoc Text Text) (c : ℕ) (s : Text)
    → match_var (c ∷ s) ≡ none
    → render_from params 0 (c ∷ s) ≡ c ∷ render_from params 0 s
unfolding render_from
render_from-none params c s h = rw (h, render_from) refl

render_from-some :
    (params : Assoc Text Text) (c : ℕ) (s name rest : Text)
    → match_var (c ∷ s) ≡ some (name, rest)
    → render_from params 0 (c ∷ s)
      ≡ value_of params name ++ render_from params (length s - length rest) s
unfolding render_from
render_from-some params c s name rest h = rw (h, render_from) refl

render_from-past :
    (params : Assoc Text Text) (xs s : Text)
    → render_from params (length (xs ++ s) - length s) (xs ++ s) ≡ render_from params 0 s
render_from-past params xs s =
    ap (λ n. render_from params n (xs ++ s)) (omega (arith, length-append xs s))
    ∙ render_from-skip params xs s

after_braces-append :
    (before : Text) (c : ℕ) (w after s : Text)
    → (before ++ ((c ∷ w) ++ (after ++ closing []))) ++ s ≡ after_braces before c w after s
unfolding after_braces closing
after_braces-append before c w after s = simp append_assoc

-- The match of a variable is replaced, and the rest goes on.
render_from-variable :
    (params : Assoc Text Text) (before : Text) (c : ℕ) (w after s : Text)
    → IsPiece (variable before c w after)
    → render_from params 0 (b'{' ∷ b'{' ∷ after_braces before c w after s)
      ≡ value_of params (c ∷ w) ++ render_from params 0 s
render_from-variable params before c w after s h =
    let inner = before ++ ((c ∷ w) ++ (after ++ closing [])) in
    render_from-some params b'{' (b'{' ∷ after_braces before c w after s) (c ∷ w) s
      (match_var-print before c w after s h)
    ∙ ap
        (λ t.
          value_of params (c ∷ w) ++ render_from params (length (b'{' ∷ t) - length s) (b'{' ∷ t))
        (sym (after_braces-append before c w after s))
    ∙ ap (λ t. value_of params (c ∷ w) ++ t) (render_from-past params (b'{' ∷ inner) s)

-- A template renders to its literals and the values of its variables, in order, a variable without
-- a value to nothing; white space around a name does not count, and values are not rendered again.
-- The template is printed from pieces, whose literals are no opening braces.
pub render_template-print :
    (params : Assoc Text Text) (ps : List Piece)
    → All IsPiece ps
    → render_template params (print ps) ≡ meaning params ps
unfolding render_template print meaning render_from IsPiece
render_template-print params [] h = refl
render_template-print params (literal c ∷ ps) h =
    render_from-none params c (print ps) (match_var-literal c (print ps) h.0)
    ∙ ap (λ t. c ∷ t) (render_template-print params ps h.1)
render_template-print params (variable before c w after ∷ ps) h =
    render_from-variable params before c w after (print ps) h.0
    ∙ ap (λ t. value_of params (c ∷ w) ++ t) (render_template-print params ps h.1)
