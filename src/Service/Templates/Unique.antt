-- ===== src/Service/Templates/Unique.antt =====
-- What the keys and codes of the templates keep.
use mathlib.Core.Path.{subst}
use axmi_pusher.Base.{
  first, if◌then◌else◌, some, none, Option, nat_beq_iff, update, nat_eq, string_eq, text_eq, not,
  ◌≤◌, ◌||◌, ◌+◌, inr, inl, true, [], ◌∷◌, Bool-cases, ◌++◌, refl, ◌≡◌, arith, ◌==◌, String, count,
  select, Text, List, ℕ, Bool, count-append, count-update_same, count-select, count-and-le,
}
use axmi_pusher.Models.{Template, active}
use axmi_pusher.Service.Templates.{
  TemplateError, template_not_found, template_refused, is_own, has_code, create_template,
  update_template, delete_template,
}
use axmi_pusher.Service.Templates.Isolation.{HasUniqueTemplates}

append-HasUniqueTemplates :
    (t : Template) (rows : List Template)
    → count (λ r. r.id == t.id) rows ≡ 0
    → count (has_code t.tenant_id t.code) rows ≡ 0
    → HasUniqueTemplates rows
    → HasUniqueTemplates (rows ++ (t ∷ []))
append-HasUniqueTemplates t rows new_id new_code u = record {
  by_id = λ i. elim (Bool-cases (t.id == i)) [
    | inl same ↦ omega (arith, count-append (λ r. r.id == i) rows (t ∷ []), at_id i same)
    | inr other ↦ ground (arith, count-append (λ r. r.id == i) rows (t ∷ []), u.by_id i)
  ];
  by_code = λ tenant code. elim (Bool-cases (has_code tenant code t)) [
    | inl same ↦
        omega (arith, count-append (has_code tenant code) rows (t ∷ []), at_code tenant code same)
    | inr other ↦
        ground (arith, count-append (has_code tenant code) rows (t ∷ []), u.by_code tenant code)
  ];
}
  where
    at_id :
        (i : ℕ)
        → (t.id == i) ≡ true
        → count (λ r. r.id == i) (t ∷ []) + count (λ r. r.id == i) rows ≤ 1
    at_id i same =
        let none_yet : count (λ (r : Template). r.id == i) rows ≡ 0 =
          subst (λ j. count (λ (r : Template). r.id == j) rows ≡ 0) ((nat_beq_iff t.id i).0 same)
            new_id in
        ground (arith, none_yet)

    same_pair :
        (tenant : ℕ) (code : String)
        → has_code tenant code t ≡ true
        → (t.tenant_id ≡ tenant) × (t.code ≡ code)
    same_pair tenant code same = (
      (nat_beq_iff t.tenant_id tenant).0 (ground arith),
      (string_eq.beq_iff t.code code).0 (ground arith),
    )

    at_code :
        (tenant : ℕ) (code : String)
        → has_code tenant code t ≡ true
        → count (has_code tenant code) (t ∷ []) + count (has_code tenant code) rows ≤ 1
    at_code tenant code same =
        let (p, q) = same_pair tenant code same in
        let none_yet : count (has_code tenant code) rows ≡ 0 =
          subst (λ (z : ℕ × String). count (has_code z.0 z.1) rows ≡ 0) (λ i. (p i, q i))
            new_code in
        ground (arith, none_yet)

update-HasUniqueTemplates :
    (q : Template → Bool) (name content : Text) (channel_type : String) (rows : List Template)
    → HasUniqueTemplates rows
    → HasUniqueTemplates (
        update q
          (λ r. record r {
            name = name;
            content = content;
            channel_type = channel_type;
            status = active;
          })
          rows)
update-HasUniqueTemplates q name content channel_type rows u = record {
  by_id = λ i.
      rw
        (count-update_same (λ r. r.id == i) q
          (λ r. record r {
            name = name;
            content = content;
            channel_type = channel_type;
            status = active;
          })
          rows (λ r. refl))
        (u.by_id i);
  by_code = λ tenant code.
      rw
        (count-update_same (has_code tenant code) q
          (λ r. record r {
            name = name;
            content = content;
            channel_type = channel_type;
            status = active;
          })
          rows (λ r. refl))
        (u.by_code tenant code);
}

select-HasUniqueTemplates :
    (p : Template → Bool) (rows : List Template)
    → HasUniqueTemplates rows
    → HasUniqueTemplates (select p rows)
select-HasUniqueTemplates p rows u = record {
  by_id = λ i. omega (
    arith,
    count-select p (λ r. r.id == i) rows,
    count-and-le (λ r. r.id == i) p rows,
    u.by_id i,
  );
  by_code = λ tenant code. omega (
    arith,
    count-select p (has_code tenant code) rows,
    count-and-le (has_code tenant code) p rows,
    u.by_code tenant code,
  );
}

-- A key names one template, and a code one template of its tenant, after every operation as before
-- it, whatever the database refuses; a template is created with a key that is new.
pub templates_unique :
    (tenant id : ℕ) (refused refused' : Bool) (created_by : ℕ) (code : String) (name content : Text)
    (channel_type : String) (rows : List Template)
    → HasUniqueTemplates rows
    → count (λ r. r.id == id) rows ≡ 0
    → HasUniqueTemplates
        (create_template refused id tenant created_by code name content channel_type rows).0
      × HasUniqueTemplates
          (update_template refused refused' tenant id name content channel_type rows).0
      × HasUniqueTemplates (delete_template refused tenant id rows).0
unfolding create_template update_template delete_template
templates_unique tenant id refused refused' created_by code name content channel_type rows u new =
    (created, updated, deleted)
  where
    made : Template
    made = record {
      id = id;
      tenant_id = tenant;
      code = code;
      name = name;
      content = content;
      channel_type = channel_type;
      status = active;
      created_by = created_by;
    }

    created :
        HasUniqueTemplates
          (create_template refused id tenant created_by code name content channel_type rows).0
    created = elim (Bool-cases (content == [])) [
      | inl empty ↦ rw empty u
      | inr given ↦
          rw given (elim (Bool-cases (refused || not (count (has_code tenant code) rows == 0))) [
            | inl no_room ↦ rw no_room u
            | inr room ↦ rw room (append-HasUniqueTemplates made rows new (ground arith) u)
          ])
    ]

    updated :
        HasUniqueTemplates
          (update_template refused refused' tenant id name content channel_type rows).0
    updated = found (if refused then none else first (is_own tenant id) rows)
      where
        found :
            (o : Option Template)
            → HasUniqueTemplates (
                (elim o as (λ (_ : Option Template). List Template × Option TemplateError) [
                  | none ↦ (rows, some template_not_found)
                  | some t ↦ if refused' then (rows, some template_refused) else (
                    update
                        (λ r. r.id == t.id)
                        (λ r. record r {
                          name = name;
                          content = content;
                          channel_type = channel_type;
                          status = active;
                        })
                        rows,
                    none,
                  )
                ]).0)
        found none = u
        found (some t) = elim (Bool-cases refused') [
          | inl no_write ↦ rw no_write u
          | inr taken ↦
              rw taken
                (update-HasUniqueTemplates (λ r. r.id == t.id) name content channel_type rows u)
        ]

    deleted : HasUniqueTemplates (delete_template refused tenant id rows).0
    deleted = elim (Bool-cases refused) [
      | inl no_write ↦ rw no_write u
      | inr taken ↦ rw taken (select-HasUniqueTemplates (λ t. not (is_own tenant id t)) rows u)
    ]
