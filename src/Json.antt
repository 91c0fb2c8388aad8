-- ===== src/Json.antt =====
-- The values that `JSON.parse` returns, and the tests that the code makes on an `unknown`.
use caveat.Common.{
  ℕ, Bool, true, false, Option, none, some, List, [], ◌∷◌, Text, ◌==◌, list_eq, nat_eq,
  if◌then◌else◌,
}

-- A number that is an integer is `int` of its sign (true for negative) and its size; any other
-- number is `fraction`.
mutual
  pub data Json : Type 0 where
    null fraction : Json
    bool : Bool → Json
    int : Bool → ℕ → Json
    str : Text → Json
    arr : Items → Json
    obj : Fields → Json

  pub data Items : Type 0 where
    nil : Items
    cons : Json → Items → Items

  pub data Fields : Type 0 where
    end : Fields
    field : Text → Json → Fields → Fields

abbrev pub items : Items → List Json
items nil = []
items (cons v vs) = v ∷ items vs

-- `record[name]`; `none` is `undefined`. Of two fields with one name `JSON.parse` keeps the last.
abbrev pub prop : Text → Fields → Option Json
prop name end = none
prop name (field key value rest) = elim (prop name rest) [
  | some later ↦ some later
  | none ↦ if key == name then some value else none
]

-- `isRecord(v) ? v : {}`, also where `v` is `undefined`.
abbrev pub fields_of : Option Json → Fields
fields_of (some (obj fs)) = fs
fields_of _ = end

abbrev pub is_record : Json → Bool
is_record (obj fs) = true
is_record _ = false

-- `typeof v === 'string' ? v : ''`
abbrev pub text_or_empty : Option Json → Text
text_or_empty (some (str t)) = t
text_or_empty _ = []

-- `v === 'literal'`
abbrev pub is_text : Option Json → Text → Bool
is_text (some (str t)) literal = t == literal
is_text _ literal = false

abbrev pub is_true : Option Json → Bool
is_true (some (bool b)) = b
is_true _ = false
