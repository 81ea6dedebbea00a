-- ===== src/Api/Auth/Bearer.antt =====
-- The token that extractBearer finds in a header.
use axmi_pusher.Base.{
  Text, [], ◌∷◌, ◌++◌, true, some, ◌≡◌, refl, ap, ◌∙◌, arith, ◌==◌, count, map, nat_eq, text_eq,
}
use axmi_pusher.Base.Keys.{codes}
use axmi_pusher.Compat.{trim_space}
use axmi_pusher.Api.Auth.{split_space, lower, is_bearer, bearer_of, extract_bearer}

spaces-lower : (s : Text) → count (λ c. c == 32) (map lower s) ≡ count (λ c. c == 32) s
spaces-lower [] = refl
spaces-lower (c ∷ s) = ground (arith, spaces-lower s)

split_space-append :
    (s t : Text) → count (λ c. c == 32) s ≡ 0 → split_space (s ++ (32 ∷ t)) ≡ some (s, t)
unfolding split_space
split_space-append [] t h = refl
split_space-append (c ∷ s) t h = ground (arith, split_space-append s t)

-- Behind the word "Bearer", in any case, and a space stands the token, with blanks around it or not.
pub extract_bearer-append :
    (scheme token : Text)
    → is_bearer scheme ≡ true
    → extract_bearer (scheme ++ (32 ∷ token)) ≡ trim_space token
unfolding is_bearer bearer_of extract_bearer
extract_bearer-append scheme token h =
    let lowered : map lower scheme ≡ codes "bearer" =
      (text_eq.beq_iff (map lower scheme) (codes "bearer")).0 h in
    let spaces : count (λ c. c == 32) (map lower scheme) ≡ 0 = rw lowered refl in
    let parts = split_space-append scheme token (omega (arith, spaces-lower scheme, spaces)) in
    ap bearer_of parts ∙ rw h refl
