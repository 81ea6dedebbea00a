-- ===== src/Service/Settings.antt =====
-- internal/service/settings.go: values by their keys, in rows of the database. The decoding and
-- encoding of JSON are parameters.
use axmi_pusher.Base.{
  ℕ, String, Bool, Option, List, [], ◌∷◌, ◌++◌, true, false, none, some, ◌≡◌, arith, ◌==◌,
  if◌then◌else◌, string_eq, first, update, count, nat_eq, eq_iff, Bool-cases, inl, inr,
}

pub record Setting : Type 0 where
  pub key : String
  pub value : String
  pub updated_by : ℕ
  pub updated_at : ℕ

module _ (find_refused : Bool) where
  -- Get: none is an error, and a key without a row has the fallback.
  unfoldable pub get_setting : String → String → List Setting → Option String
  get_setting key fallback rows =
      if find_refused
      then none
      else elim (first (λ r. r.key == key) rows) [ none ↦ some fallback | some r ↦ some r.value ]

  -- GetJSON: a target that is left as it is for an empty value.
  unfoldable pub get_json {ℓ} :
      {A : Type ℓ} → (String → A → Option A) → String → A → List Setting → Option A
  unfolding get_setting
  get_json unmarshal key target rows = elim (get_setting key "" rows) [
    | none ↦ none
    | some raw ↦ if raw == "" then some target else unmarshal raw target
  ]

module _ (write_refused : Bool) (updated_by now : ℕ) where
  -- Set: inserts the row, or overwrites it.
  unfoldable pub set_setting : String → String → List Setting → List Setting × Bool
  set_setting key value rows =
      let st : Setting = record {
        key = key;
        value = value;
        updated_by = updated_by;
        updated_at = now;
      } in
      if write_refused then (rows, false) else (
        if count (λ r. r.key == key) rows == 0
            then rows ++ (st ∷ [])
            else update (λ r. r.key == key) (λ r. st) rows,
        true,
      )

  -- SetJSON
  unfoldable pub set_json {ℓ} :
      {A : Type ℓ} → (A → Option String) → String → A → List Setting → List Setting × Bool
  unfolding set_setting
  set_json marshal key value rows = elim (marshal value) [
    | none ↦ (rows, false)
    | some raw ↦ set_setting key raw rows
  ]

first_appended :
    (st : Setting) (k : String) (rows : List Setting)
    → (count (λ r. r.key == st.key) rows == 0) ≡ true
    → first (λ r. r.key == k) (rows ++ (st ∷ []))
      ≡ (if st.key == k then some st else first (λ r. r.key == k) rows)
first_appended st k [] h = ground arith
first_appended st k (r ∷ rows) h =
    ground (arith, first_appended st k rows, eq_iff r.key k, eq_iff r.key st.key, eq_iff st.key k)

first_updated :
    (st : Setting) (k : String) (rows : List Setting)
    → first (λ r. r.key == k) (update (λ r. r.key == st.key) (λ r. st) rows) ≡ (
        if st.key == k
        then (if count (λ r. r.key == st.key) rows == 0 then none else some st)
        else first (λ r. r.key == k) rows)
first_updated st k [] = ground arith
first_updated st k (r ∷ rows) =
    ground (arith, first_updated st k rows, eq_iff r.key k, eq_iff r.key st.key, eq_iff st.key k)

-- A written value is read back, and the other keys keep theirs.
pub get_setting-set_setting :
    (updated_by now : ℕ) (key value k fallback : String) (rows : List Setting)
    → get_setting false k fallback (set_setting false updated_by now key value rows).0
      ≡ (if key == k then some value else get_setting false k fallback rows)
unfolding get_setting set_setting
get_setting-set_setting updated_by now key value k fallback rows =
    let st : Setting = record {
      key = key;
      value = value;
      updated_by = updated_by;
      updated_at = now;
    } in
    elim (Bool-cases (count (λ r. r.key == key) rows == 0)) [
      | inl fresh ↦ ground (arith, first_appended st k rows fresh)
      | inr found ↦ ground (arith, first_updated st k rows, found)
    ]
