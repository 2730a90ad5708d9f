-- ===== src/Admin/Store.antt =====
-- internal/admin/store.go: the table admin_config, a map from keys to texts. The flag of an
-- operation says that the database fails it.
use agent_ledger.Base.{
  Bool, true, false, String, str_eq, Option, none, some, List, [], if◌then◌else◌, ◌≡◌, ◌≢◌, arith,
  eq_iff, Option-cases, Bool-cases, inl, inr, subst,
}
use agent_ledger.Base.GoMap
use agent_ledger.Base.GoMap.{GoMap, get-put_self, get-put_ne}

abbrev pub Rows : Type 0
Rows = GoMap String

-- json.Marshal of a list or a map, `none` an error, and json.Unmarshal into a nil one: what is then
-- there, and whether there was an error.
pub record Codec (A : Type 0) : Type 0 where
  pub encode : List A → Option String
  pub decode : String → List A × Bool

-- A value that can be written is read again, and no JSON text is empty.
pub record RoundTrips {A : Type 0} (c : Codec A) : Type 0 where
  pub decode-encode :
      (v : List A) (text : String) → c.encode v ≡ some text → c.decode text ≡ (v, false)
  pub not_empty : (v : List A) (text : String) → c.encode v ≡ some text → text ≢ ""

-- Get: "" for a missing row, `none` for an error.
unfoldable pub get : Rows → Bool → String → Option String
get rows fails key =
    if fails then none else elim (GoMap.get rows key) [ none ↦ some "" | some value ↦ some value ]

-- Set
unfoldable pub set : Rows → Bool → String → String → Option Rows
set rows fails key value = if fails then none else some (GoMap.put rows key value)

-- Delete
pub delete : Rows → Bool → String → Option Rows
delete rows fails key = if fails then none else some (GoMap.delete rows key)

-- ListAll
pub list_all : Rows → Bool → Option Rows
list_all rows fails = if fails then none else some rows

module _ {A : Type 0} (c : Codec A) where
  -- GetJSON into a nil list or map: what is then there, and whether an error is returned.
  unfoldable pub get_json : Rows → Bool → String → List A × Bool
  get_json rows fails key = elim (get rows fails key) [
    | none ↦ ([], true)
    | some raw ↦ if str_eq raw "" then ([], false) else c.decode raw
  ]

  -- SetJSON
  unfoldable pub set_json : Rows → Bool → String → List A → Option Rows
  set_json rows fails key value = elim (c.encode value) [
    | none ↦ none
    | some text ↦ set rows fails key text
  ]

  -- What a value is after GetJSON without a failure of the database.
  abbrev pub stored : Rows → String → List A
  stored rows key = (get_json rows false key).0

  -- A value that was saved is read again, whatever the database answered before.
  pub get_json-set :
      (rows saved : Rows) (fails : Bool) (key : String) (value : List A)
      → RoundTrips c
      → set_json rows fails key value ≡ some saved
      → get_json saved false key ≡ (value, false)
  unfolding get_json set_json get set
  get_json-set rows saved fails key value law h = elim (Option-cases (c.encode value)) [
    | inl e ↦ absurd (ground (arith, e, h))
    | inr (text, e) ↦
        let read = law.decode-encode value text e in
        let found = get-put_self rows key text in
        elim (Bool-cases fails) [
          | inl b ↦ absurd (ground (arith, e, b, h))
          | inr b ↦
              let same : GoMap.put rows key text ≡ saved = ground (arith, e, b, h) in
              subst (λ s. get_json s false key ≡ (value, false)) same
                (ground (arith, found, eq_iff text "", law.not_empty value text e, read))
        ]
  ]

  -- A value that can be written is saved, unless the database fails.
  pub set_json_encoded :
      (rows : Rows) (fails : Bool) (key : String) (value : List A) (text : String)
      → c.encode value ≡ some text
      → fails ≡ false
      → (saved : Rows) × (set_json rows fails key value ≡ some saved)
  unfolding set_json set
  set_json_encoded rows fails key value text e w = (GoMap.put rows key text, ground (arith, e, w))

-- Saving one value leaves the others.
pub get_json-set_ne :
    {A B : Type 0} (c : Codec A) (d : Codec B) (rows saved : Rows) (fails : Bool)
    (key other : String) (value : List A)
    → key ≢ other
    → set_json c rows fails key value ≡ some saved
    → stored d saved other ≡ stored d rows other
unfolding get_json set_json get set
get_json-set_ne c d rows saved fails key other value ne h = elim (Option-cases (c.encode value)) [
  | inl e ↦ absurd (ground (arith, e, h))
  | inr (text, e) ↦ elim (Bool-cases fails) [
    | inl b ↦ absurd (ground (arith, e, b, h))
    | inr b ↦
        let same : GoMap.put rows key text ≡ saved = ground (arith, e, b, h) in
        subst (λ s. stored d s other ≡ stored d rows other) same
          (ground (arith, get-put_ne rows key other text ne))
  ]
]
