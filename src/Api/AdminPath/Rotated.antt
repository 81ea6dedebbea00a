-- ===== src/Api/AdminPath/Rotated.antt =====
-- The path after a rotation.
use axmi_pusher.Base.{
  Bool, true, false, ◌&&◌, ◌||◌, not, ◌∷◌, ◌∙◌, nat_eq, text_beq_iff, ℕ, Text, Option, List, [],
  none, some, inl, inr, ◌⊎◌, ◌≡◌, ◌≢◌, refl, arith, ◌==◌, text_eq, length, Bool-cases,
}
use axmi_pusher.Compat.{trim_space}
use axmi_pusher.Config.AdminPath.{PathError, validate_admin_path, generate_admin_path, trim_both}
use axmi_pusher.Config.AdminPath.Valid.{
  trim_both-alnum, validated-alnum, validate_admin_path-again, generate_admin_path-valid,
}
use axmi_pusher.Api.{
  Answer, ok, bad_request, unauthorized, forbidden, not_found, conflict, too_many_requests,
  server_error,
}
use mathlib.Core.Path.{subst}
use axmi_pusher.Api.AdminPath.{
  AdminSite, RotateEnv, accepted_path, random_path_of, new_path, put_path, rotate_admin_path,
  serves_page, register_admin_spa, keep_path, has_route, admin_spa_handler, prefix_of,
  first_segment, without_slash,
}

-- The path of a request below a prefix.
unfoldable pub is_below : Text → Text → Bool
is_below p path = elim (prefix_of path) [ none ↦ false | some q ↦ q == p ]

-- A site that has come to a path: it is valid, in memory and in the file. With a router and pages the
-- path had no route before, and the requests below it, and no other, get a page; else no route is
-- new, and a request gets a page if it is below the path and that had a route before.
pub record IsAt (env : RotateEnv) (p : Text) (before site : AdminSite) : Type 0 where
  pub valid : validate_admin_path p ≡ inr p
  pub in_memory : site.random_path ≡ p
  pub in_file : site.saved_path ≡ p
  pub pages :
      (env.has_router && env.has_dist) ≡ true
      → (has_route p before.routes ≡ false)
        × ((path : Text) → serves_page path site ≡ is_below p path)
  pub no_pages :
      (env.has_router && env.has_dist) ≡ false
      → (site.routes ≡ before.routes)
        × ((path : Text) → serves_page path site ≡ (is_below p path && has_route p before.routes))

-- Sixteen bytes, if there are any.
abbrev pub IsDrawn : Option (List ℕ) → Type 0
IsDrawn none = Unit
IsDrawn (some bytes) = length bytes ≡ 16

made-valid :
    (bytes : List ℕ) (o : Option Text) (p : Text)
    → length bytes ≡ 16
    → generate_admin_path (some bytes) ≡ o
    → random_path_of o ≡ ok p
    → validate_admin_path p ≡ inr p
unfolding random_path_of
made-valid bytes none p drawn made h = cc
made-valid bytes (some q) p drawn made h =
    generate_admin_path-valid bytes p drawn (ground (arith, made, h))

no_bytes : (p : Text) → random_path_of (generate_admin_path none) ≢ ok p
unfolding generate_admin_path random_path_of
no_bytes p h = cc

random-valid :
    (bytes : Option (List ℕ)) (p : Text)
    → IsDrawn bytes
    → random_path_of (generate_admin_path bytes) ≡ ok p
    → validate_admin_path p ≡ inr p
random-valid none p drawn h = absurd (no_bytes p h)
random-valid (some bytes) p drawn h = made-valid bytes _ p drawn refl h

accepted-valid :
    (old asked p : Text) (r : PathError ⊎ Text)
    → validate_admin_path asked ≡ r
    → accepted_path old r ≡ ok p
    → validate_admin_path p ≡ inr p
unfolding accepted_path
accepted-valid old asked p (inl e) read h = cc
accepted-valid old asked p (inr q) read h = validate_admin_path-again asked p (ground arith)

new_path-valid :
    (bytes : Option (List ℕ)) (old asked p : Text)
    → IsDrawn bytes
    → new_path bytes old asked ≡ ok p
    → validate_admin_path p ≡ inr p
unfolding new_path
new_path-valid bytes old asked p drawn h = elim (Bool-cases (asked == [])) [
  | inl random ↦ random-valid bytes p drawn (rw random at h)
  | inr custom ↦ accepted-valid old asked p _ refl (rw custom at h)
]

of_route :
    (q p : Text) (routes : List Text)
    → (has_route q routes && q == p) ≡ (q == p && has_route p routes)
of_route q p routes = elim (Bool-cases (q == p)) [
  | inl same ↦ rw ((text_beq_iff q p).0 same) (ground arith)
  | inr other ↦ ground arith
]

prefix_of-first_segment :
    (path q : Text) → prefix_of path ≡ some q → first_segment (without_slash path) ≡ q
unfolding prefix_of
prefix_of-first_segment [] q h = cc
prefix_of-first_segment (c ∷ s) q h = elim (Bool-cases (c == b'/')) [
  | inl slash ↦ rw slash (ground (arith, h))
  | inr other ↦ absurd (ground (arith, h))
]

handled_below :
    (p path q : Text) (site : AdminSite)
    → validate_admin_path p ≡ inr p
    → site.random_path ≡ p
    → first_segment (without_slash path) ≡ q
    → (has_route q site.routes && admin_spa_handler path site) ≡ (q == p && has_route p site.routes)
unfolding admin_spa_handler
handled_below p path q site valid live segment =
    let (alnum, some_text) = validated-alnum p p valid in
    rw (live, trim_both-alnum p alnum, some_text, segment) (of_route q p site.routes)

-- A site at a valid path gives pages to the requests below it, if it has a route.
page_below :
    (p path : Text) (site : AdminSite)
    → validate_admin_path p ≡ inr p
    → site.random_path ≡ p
    → serves_page path site ≡ (is_below p path && has_route p site.routes)
unfolding serves_page is_below
page_below p path site valid live = by_prefix (prefix_of path) refl
  where
    by_prefix :
        (o : Option Text)
        → prefix_of path ≡ o
        → (elim o [
          | none ↦ false
          | some q ↦ has_route q site.routes && admin_spa_handler path site
        ])
          ≡ ((elim o [ none ↦ false | some q ↦ q == p ]) && has_route p site.routes)
    by_prefix none read = refl
    by_prefix (some q) read =
        handled_below p path q site valid live (prefix_of-first_segment path q read)

-- RegisterAdminSPA on a valid path.
Registers : RotateEnv → Text → List Text → Option (List Text) → Type 0
Registers env p routes none = Unit
Registers env p routes (some routes') =
    ((env.has_router && env.has_dist) ≡ true
      → (has_route p routes ≡ false) × (has_route p routes' ≡ true))
    × ((env.has_router && env.has_dist) ≡ false → routes' ≡ routes)

register-Registers :
    (env : RotateEnv) (p : Text) (routes : List Text)
    → validate_admin_path p ≡ inr p
    → Registers env p routes (register_admin_spa env p routes)
unfolding register_admin_spa has_route Registers
register-Registers env p routes valid =
    let (alnum, some_text) = validated-alnum p p valid in
    elim (Bool-cases (env.has_router && env.has_dist)) [
      | inl all ↦
          let goes : (not env.has_router || (p == [] || not env.has_dist)) ≡ false = ground arith in
          rw (goes, trim_both-alnum p alnum)
            (elim (Bool-cases (has_route p routes)) [
              | inl known ↦ rw known tt
              | inr new ↦
                  let self : (p == p) ≡ true = (text_beq_iff p p).1 refl in
                  rw (new, self) (λ _. (new, refl), λ none_there. absurd (ground arith))
            ])
      | inr lacks ↦
          let stops : (not env.has_router || (p == [] || not env.has_dist)) ≡ true = ground arith in
          rw stops (λ all. absurd (ground arith), λ _. refl)
    ]

keep-IsAt :
    (env : RotateEnv) (site : AdminSite) (q p : Text) (r : Option (List Text))
    → validate_admin_path q ≡ inr q
    → Registers env q site.routes r
    → (keep_path env site q r).1 ≡ ok p
    → IsAt env p site (keep_path env site q r).0
unfolding keep_path Registers
keep-IsAt env site q p none valid reg h = cc
keep-IsAt env site q p (some routes) valid reg h = elim (Bool-cases env.save_failed) [
  | inl failed ↦ absurd (ground arith)
  | inr saved ↦
      let same : q ≡ p = ground arith in
      subst (λ x. IsAt env x site (keep_path env site q (some routes)).0) same
        (rw saved (record {
          valid = valid;
          in_memory = refl;
          in_file = refl;
          pages = λ all. (
            (reg.0 all).0,
            λ path. page_below q path _ valid refl ∙ rw ((reg.0 all).1) (ground arith),
          );
          no_pages = λ lacks.
              (reg.1 lacks, λ path. page_below q path _ valid refl ∙ rw (reg.1 lacks) refl);
        }))
]

put-IsAt :
    (env : RotateEnv) (site : AdminSite) (a : Answer Text) (p : Text)
    → ((q : Text) → a ≡ ok q → validate_admin_path q ≡ inr q)
    → (put_path env site a).1 ≡ ok p
    → IsAt env p site (put_path env site a).0
unfolding put_path
put-IsAt env site (ok q) p valid h = elim (Bool-cases (env.has_dist && env.rewrite_failed)) [
  | inl failed ↦ absurd (ground arith)
  | inr rewritten ↦ rw rewritten (
      keep-IsAt env site q p (register_admin_spa env q site.routes) (valid q refl)
        (register-Registers env q site.routes (valid q refl)) (rw rewritten at h))
]
put-IsAt env site bad_request p valid h = cc
put-IsAt env site unauthorized p valid h = cc
put-IsAt env site forbidden p valid h = cc
put-IsAt env site not_found p valid h = cc
put-IsAt env site conflict p valid h = cc
put-IsAt env site too_many_requests p valid h = cc
put-IsAt env site server_error p valid h = cc

-- Where a rotation of the path of the administration answers with a path, whether it was asked for or
-- made of 16 random bytes, that path passes ValidateAdminPath and stands in memory and in the file.
-- With a router and a directory of pages it had no route before, and from then on just the
-- requests below it get a page of the administration; else no route is new, and a request gets a page
-- if it is below the path and that had a route before.
pub rotate_admin_path-IsAt :
    (env : RotateEnv) (asked p : Text) (site : AdminSite)
    → IsDrawn env.bytes
    → (rotate_admin_path env asked site).1 ≡ ok p
    → IsAt env p site (rotate_admin_path env asked site).0
unfolding rotate_admin_path
rotate_admin_path-IsAt env asked p site drawn h =
    put-IsAt env site _ p
      (λ q made.
        new_path-valid env.bytes (trim_both site.random_path) (trim_space asked) q drawn made)
      h
