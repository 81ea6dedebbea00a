-- ===== src/Api/AdminPath.antt =====
-- RotateAdminPath (internal/api/handler/admin_settings.go): the path of the administration, in
-- memory, in the file of the configuration and in the routes.
pub mod Rotated
use axmi_pusher.Base.{
  ℕ, String, Text, Option, List, [], ◌∷◌, none, some, inl, inr, ◌⊎◌, if◌then◌else◌, ◌==◌, text_eq,
  not, ◌&&◌, true, false, Bool, nat_eq, ◌||◌,
}
use axmi_pusher.Compat.{trim_space}
use axmi_pusher.Config.AdminPath.{PathError, validate_admin_path, generate_admin_path, trim_both}
use axmi_pusher.Api.{Answer, ok, bad_request, server_error, AuditLog, audit}

-- The path in memory and the one in the file; the prefixes with a route, and the audit log.
pub record AdminSite : Type 0 where
  pub random_path : Text
  pub saved_path : Text
  pub routes : List Text
  pub logs : List AuditLog

-- What a rotation meets: the random bytes, whether the App has a router and its configuration a
-- directory with the pages (AdminDist), whether these are rewritten, and the file written.
pub record RotateEnv : Type 0 where
  pub bytes : Option (List ℕ)
  pub has_router : Bool
  pub has_dist : Bool
  pub rewrite_failed : Bool
  pub save_failed : Bool
  pub audit_refused : Bool
  pub actor_id : ℕ
  pub actor_email : String

-- The new path, or the answer.
unfoldable pub accepted_path : Text → PathError ⊎ Text → Answer Text
accepted_path old (inl e) = bad_request
accepted_path old (inr p) = if p == old then bad_request else ok p

unfoldable pub random_path_of : Option Text → Answer Text
random_path_of none = server_error
random_path_of (some p) = ok p

unfoldable pub new_path : Option (List ℕ) → Text → Text → Answer Text
unfolding accepted_path random_path_of
new_path bytes old asked =
    if asked == []
    then random_path_of (generate_admin_path bytes)
    else accepted_path old (validate_admin_path asked)

unfoldable pub has_route : Text → List Text → Bool
has_route p [] = false
has_route p (q ∷ routes) = let rest = has_route p routes in q == p || rest

-- RegisterAdminSPA (internal/app/install.go): the routes with the one of the prefix. The router panics
-- on a route that it has, and has no call that takes one away.
unfoldable pub register_admin_spa : RotateEnv → Text → List Text → Option (List Text)
unfolding has_route
register_admin_spa env p routes =
    if not env.has_router || (p == [] || not env.has_dist)
    then some routes
    else (if has_route (trim_both p) routes then none else some (trim_both p ∷ routes))

-- The path in memory, and then the file.
unfoldable pub keep_path :
    RotateEnv → AdminSite → Text → Option (List Text) → AdminSite × Answer Text
keep_path env site p none = (site, server_error)
keep_path env site p (some routes) =
    let live = record site { random_path = p; routes = routes } in
    if env.save_failed then (live, server_error) else (
      record live {
        saved_path = p;
        logs =
            audit env.audit_refused env.actor_id env.actor_email "settings.rotate_admin_path"
              site.logs;
      },
      ok p,
    )

-- The rewriting of the pages, the new route, and the rest; gin.Recovery answers a panic.
unfoldable pub put_path : RotateEnv → AdminSite → Answer Text → AdminSite × Answer Text
unfolding keep_path register_admin_spa
put_path env site (ok p) =
    if env.has_dist && env.rewrite_failed
    then (site, server_error)
    else keep_path env site p (register_admin_spa env p site.routes)
put_path env site e = (site, e)

-- RotateAdminPath
unfoldable pub rotate_admin_path : RotateEnv → Text → AdminSite → AdminSite × Answer Text
unfolding new_path put_path
rotate_admin_path env asked site =
    put_path env site (new_path env.bytes (trim_both site.random_path) (trim_space asked))

-- The text before the first slash.
unfoldable pub first_segment : Text → Text
first_segment [] = []
first_segment (c ∷ s) = let rest = first_segment s in if c == b'/' then [] else c ∷ rest

abbrev pub without_slash : Text → Text
without_slash [] = []
without_slash (c ∷ s) = if c == b'/' then s else c ∷ s

unfoldable pub has_slash : Text → Bool
has_slash [] = false
has_slash (c ∷ s) = let rest = has_slash s in c == b'/' || rest

-- The prefix of the route /prefix/*filepath that the path of a request can match.
unfoldable pub prefix_of : Text → Option Text
unfolding first_segment has_slash
prefix_of [] = none
prefix_of (c ∷ s) = if c == b'/' && has_slash s then some (first_segment s) else none

-- AdminSPAHandler (internal/app/admin_spa.go): whether the path of a request to one of its routes gets
-- a page, or a 404. The prefix of the path must be the one in memory, if there is one.
unfoldable pub admin_spa_handler : Text → AdminSite → Bool
unfolding first_segment
admin_spa_handler path site =
    let cur = trim_both site.random_path in cur == [] || first_segment (without_slash path) == cur

-- Whether the path of a request gets a page of the administration: only a route leads to the handler.
unfoldable pub serves_page : Text → AdminSite → Bool
unfolding prefix_of
serves_page path site = elim (prefix_of path) [
  | none ↦ false
  | some p ↦ has_route p site.routes && admin_spa_handler path site
]
