-- ===== src/Service/Templates/Isolation.antt =====
-- A tenant's operations and the templates of the others.
use axmi_pusher.Base.{
  none, if◌then◌else◌, Option, false, Bool, update_none, inr, inl, Bool-cases, true, update, some,
  first, Text, refl, nat_beq_iff, String, [], arith, ◌≤◌, nat_eq, ◌∷◌, not, ◌++◌, ◌==◌, ◌≡◌, select,
  count, ℕ, List, ◌≢◌,
}
use axmi_pusher.Models.{active, Template}
use axmi_pusher.Service.Templates.{
  delete_template, update_template, create_template, TemplateError, template_not_found,
  template_refused, is_own, has_code,
}

-- The templates of a tenant.
abbrev pub templates_of : ℕ → List Template → List Template
templates_of tenant rows = select (λ t. t.tenant_id == tenant) rows

-- Keys are unique, and so are the codes of a tenant.
pub record HasUniqueTemplates (rows : List Template) : Type 0 where
  pub by_id : (i : ℕ) → count (λ t. t.id == i) rows ≤ 1
  pub by_code : (tenant : ℕ) (code : String) → count (has_code tenant code) rows ≤ 1

append_elsewhere :
    (tenant other : ℕ) (t : Template) (rows : List Template)
    → t.tenant_id ≡ tenant
    → tenant ≢ other
    → templates_of other (rows ++ (t ∷ [])) ≡ templates_of other rows
append_elsewhere tenant other t [] same differ = ground (arith, nat_beq_iff t.tenant_id other)
append_elsewhere tenant other t (r ∷ rows) same differ =
    ground (arith, append_elsewhere tenant other t rows same differ)

delete_elsewhere :
    (tenant other id : ℕ) (rows : List Template)
    → tenant ≢ other
    → templates_of other (select (λ t. not (is_own tenant id t)) rows) ≡ templates_of other rows
delete_elsewhere tenant other id [] differ = refl
delete_elsewhere tenant other id (r ∷ rows) differ = ground (
  arith,
  delete_elsewhere tenant other id rows differ,
  nat_beq_iff r.tenant_id other,
  nat_beq_iff r.tenant_id tenant,
)

module _ (tenant other id : ℕ) (differ : tenant ≢ other) (name content : Text)
    (channel_type : String) where
  written : Template → Template
  written r = record r {
    name = name;
    content = content;
    channel_type = channel_type;
    status = active;
  }

  own_row :
      (t : Template) (rows : List Template)
      → first (is_own tenant id) rows ≡ some t
      → (t.id == id) ≡ true
  own_row t [] h = cc
  own_row t (r ∷ rows) h = grind (arith, own_row t rows)

  own_counts :
      (t : Template) (rows : List Template)
      → first (is_own tenant id) rows ≡ some t
      → 1 ≤ count (λ r. r.id == id) rows
  own_counts t [] h = cc
  own_counts t (r ∷ rows) h = ground (arith, own_counts t rows)

  update_elsewhere :
      (t : Template) (rows : List Template)
      → count (λ r. r.id == id) rows ≤ 1
      → first (is_own tenant id) rows ≡ some t
      → templates_of other (update (λ r. r.id == id) written rows) ≡ templates_of other rows
  unfolding written
  update_elsewhere t [] u h = refl
  update_elsewhere t (r ∷ rows) u h = elim (Bool-cases (is_own tenant id r)) [
    | inl own ↦
        (let none_left : count (λ (q : Template). q.id == id) rows ≡ 0 = ground arith in
          rw (update_none (λ (q : Template). q.id == id) written rows none_left)
            (ground (arith, nat_beq_iff r.tenant_id other)))
    | inr not_own ↦
        (let later : first (is_own tenant id) rows ≡ some t = ground (arith, h) in
          let miss : (r.id == id) ≡ false = ground (arith, own_counts t rows later) in
          let rest : templates_of other (update (λ q. q.id == id) written rows)
              ≡ templates_of other rows =
            update_elsewhere t rows (ground arith) later in
          ground (arith, miss, rest))
  ]

  update_template-elsewhere :
      (read_refused write_refused : Bool) (rows : List Template)
      → HasUniqueTemplates rows
      → templates_of other
          (update_template read_refused write_refused tenant id name content channel_type rows).0
        ≡ templates_of other rows
  unfolding update_template written
  update_template-elsewhere read_refused write_refused rows u =
      found (if read_refused then none else first (is_own tenant id) rows) refl
    where
      found :
          (o : Option Template)
          → (if read_refused then none else first (is_own tenant id) rows) ≡ o
          → templates_of other (
              (elim o as (λ (_ : Option Template). List Template × Option TemplateError) [
                | none ↦ (rows, some template_not_found)
                | some t ↦ if write_refused then (rows, some template_refused) else (
                  update
                      (λ r. r.id == t.id)
                      (λ r. record r {
                        name = name;
                        content = content;
                        channel_type = channel_type;
                        status = active;
                      })
                      rows,
                  none,
                )
              ]).0)
            ≡ templates_of other rows
      found none there = refl
      found (some t) there = elim (Bool-cases write_refused) [
        | inl refused ↦ rw refused refl
        | inr taken ↦
            let own : first (is_own tenant id) rows ≡ some t = ground arith in
            let same : t.id ≡ id = (nat_beq_iff t.id id).0 (own_row t rows own) in
            rw (taken, same) (update_elsewhere t rows (u.by_id id) own)
      ]

-- Whatever a tenant creates, updates or deletes, and whatever the database refuses, the templates of
-- the other tenants stay as they are; keys are unique before an update.
pub templates_isolated :
    (tenant other id : ℕ) (refused refused' : Bool) (created_by : ℕ) (code : String)
    (name content : Text) (channel_type : String) (rows : List Template)
    → tenant ≢ other
    → HasUniqueTemplates rows
    → (templates_of other
          (create_template refused id tenant created_by code name content channel_type rows).0
        ≡ templates_of other rows)
      × (templates_of other
            (update_template refused refused' tenant id name content channel_type rows).0
          ≡ templates_of other rows)
      × (templates_of other (delete_template refused tenant id rows).0 ≡ templates_of other rows)
unfolding create_template delete_template
templates_isolated tenant other id refused refused' created_by code name content channel_type rows
      differ u =
    let made : Template = record {
      id = id;
      tenant_id = tenant;
      code = code;
      name = name;
      content = content;
      channel_type = channel_type;
      status = active;
      created_by = created_by;
    } in
    (
      ground (arith, append_elsewhere tenant other made rows refl differ),
      update_template-elsewhere tenant other id differ name content channel_type refused refused'
          rows u,
      ground (arith, delete_elsewhere tenant other id rows differ),
    )
