-- ===== src/Service/Templates.antt =====
-- internal/service/template.go: the templates of the tenants. The rows stand in the order of their
-- keys; a pair of a tenant and a code is unique, which the database enforces.
pub mod Isolation
pub mod Unique
use axmi_pusher.Base.Int.{ℤ}
use mathlib.Core.List.{reverse}
use axmi_pusher.Base.{
  text_eq, ◌∷◌, ◌++◌, length, update, some, true, count, string_eq, first, not, ◌||◌, [], none,
  false, nat_eq, select, Option, if◌then◌else◌, ◌&&◌, String, List, Text, ◌==◌, ℕ, Bool, ◌⊎◌, inl,
  inr,
}
use axmi_pusher.Base.Paging.{slice}
use axmi_pusher.Models.{Template, active}

pub data TemplateError : Type 0 where
  no_content template_refused template_not_found : TemplateError

abbrev pub has_code : ℕ → String → Template → Bool
has_code tenant code t = t.tenant_id == tenant && t.code == code

-- WHERE id = ? AND tenant_id = ?
abbrev pub is_own : ℕ → ℕ → Template → Bool
is_own tenant id t = t.id == id && t.tenant_id == tenant

-- CreateTemplate, with the key that the database gives.
unfoldable pub create_template :
    Bool
    → ℕ
    → ℕ
    → ℕ
    → String
    → Text
    → Text
    → String
    → List Template
    → List Template × (TemplateError ⊎ Template)
create_template refused id tenant created_by code name content channel_type rows =
    let t : Template = record {
      id = id;
      tenant_id = tenant;
      code = code;
      name = name;
      content = content;
      channel_type = channel_type;
      status = active;
      created_by = created_by;
    } in
    if content == []
    then (rows, inl no_content)
    else (if refused || not (count (has_code tenant code) rows == 0)
        then (rows, inl template_refused)
        else (rows ++ (t ∷ []), inr t))

-- UpdateTemplate: the row is read first, and written by its key.
unfoldable pub update_template :
    Bool
    → Bool
    → ℕ
    → ℕ
    → Text
    → Text
    → String
    → List Template
    → List Template × Option TemplateError
update_template read_refused write_refused tenant id name content channel_type rows =
    elim (if read_refused then none else first (is_own tenant id) rows) [
      | none ↦ (rows, some template_not_found)
      | some t ↦ if write_refused then (rows, some template_refused) else (
        update (λ r. r.id == t.id)
            (λ r. record r {
              name = name;
              content = content;
              channel_type = channel_type;
              status = active;
            })
            rows,
        none,
      )
    ]

unfoldable pub list_templates : Bool → Bool → ℕ → ℤ → ℤ → List Template → Option (List Template × ℕ)
list_templates count_refused find_refused tenant page size rows =
    let own = select (λ t. t.tenant_id == tenant) rows in
    if count_refused || find_refused then none else some (slice page size (reverse own), length own)

unfoldable pub get_template : Bool → ℕ → ℕ → List Template → Option Template
get_template refused tenant id rows = if refused then none else first (is_own tenant id) rows

-- DeleteTemplate: no row is no error.
unfoldable pub delete_template : Bool → ℕ → ℕ → List Template → List Template × Bool
delete_template refused tenant id rows =
    if refused then (rows, false) else (select (λ t. not (is_own tenant id t)) rows, true)
