-- ===== src/Json.antt =====
-- JSON values as the workflow reads them from the database, and the helpers at the end of
-- deploy/cloudflare-workers/src/workflows/production.ts that narrow them.
-- `JSON.parse` is a parameter that answers `none` where it throws.
use ai_content_workflow.Prelude.{
  ℕ, String, ◌≡◌, Bool, true, false, Option, none, some, List, [], ◌∷◌, str_eq, if◌then◌else◌,
  All-keep, keep, All,
}

mutual
  pub data Json : Type 0 where
    null : Json
    bool : Bool → Json
    num : ℕ → Json
    str : String → Json
    arr : Items → Json
    obj : Fields → Json

  pub data Items : Type 0 where
    nil : Items
    cons : Json → Items → Items

  pub data Fields : Type 0 where
    end : Fields
    field : String → Json → Fields → Fields

unfoldable pub elements : Items → List Json
elements nil = []
elements (cons x xs) = x ∷ elements xs

abbrev pub items : List Json → Items
items [] = nil
items (x ∷ xs) = cons x (items xs)

unfoldable pub get_field : String → Fields → Option Json
get_field key end = none
get_field key (field k v fs) = if str_eq k key then some v else get_field key fs

-- `typeof v === "object" && v !== null`, true of arrays too
abbrev pub is_object : Json → Bool
is_object (arr xs) = true
is_object (obj fs) = true
is_object _ = false

abbrev strings : List Json → List String
strings [] = []
strings (str s ∷ xs) = s ∷ strings xs
strings (null ∷ xs) = strings xs
strings (bool b ∷ xs) = strings xs
strings (num n ∷ xs) = strings xs
strings (arr ys ∷ xs) = strings xs
strings (obj fs ∷ xs) = strings xs

abbrev numbers : List Json → List ℕ
numbers [] = []
numbers (num n ∷ xs) = n ∷ numbers xs
numbers (null ∷ xs) = numbers xs
numbers (bool b ∷ xs) = numbers xs
numbers (str s ∷ xs) = numbers xs
numbers (arr ys ∷ xs) = numbers xs
numbers (obj fs ∷ xs) = numbers xs

strings_of : Json → List String
unfolding elements
strings_of (arr xs) = strings (elements xs)
strings_of _ = []

-- A text is parsed first; one that does not parse gives no strings.
unfoldable pub to_string_array : (String → Option Json) → Json → List String
unfolding strings_of
to_string_array parse (str s) = elim (parse s) [ none ↦ [] | some v ↦ strings_of v ]
to_string_array parse v = strings_of v

unfoldable pub to_number_array : Json → List ℕ
unfolding elements
to_number_array (arr xs) = numbers (elements xs)
to_number_array _ = []

unfoldable pub to_object_array : Json → List Json
unfolding elements
to_object_array (arr xs) = keep is_object (elements xs)
to_object_array _ = []

abbrev or_null : List Json → Option (List Json)
or_null [] = none
or_null (x ∷ xs) = some (x ∷ xs)

unfoldable pub to_object_array_or_null : Json → Option (List Json)
unfolding to_object_array
to_object_array_or_null v = or_null (to_object_array v)

unfoldable pub to_grounding_chunks : Json → List Json
unfolding elements
to_grounding_chunks (arr xs) = keep is_object (elements xs)
to_grounding_chunks _ = []

-- The array under `findings`, or nothing.
findings_of : Option Json → List Json
unfolding elements
findings_of (some (arr xs)) = keep is_object (elements xs)
findings_of _ = []

unfoldable pub extract_findings : Json → List Json
unfolding findings_of elements get_field
extract_findings (obj fs) = findings_of (get_field "findings" fs)
extract_findings (arr xs) = keep is_object (elements xs)
extract_findings _ = []

-- `sql.json({ findings })`, as the audit writes it
abbrev pub wrap_findings : List Json → Json
wrap_findings xs = obj (field "findings" (arr (items xs)) end)

-- Whatever the column holds, the findings that come out are objects.
pub extract_findings-All : (v : Json) → All (λ x. is_object x ≡ true) (extract_findings v)
unfolding extract_findings
extract_findings-All (obj fs) = found (get_field "findings" fs)
  where
    found : (o : Option Json) → All (λ x. is_object x ≡ true) (findings_of o)
    found none = tt
    found (some null) = tt
    found (some (bool b)) = tt
    found (some (num n)) = tt
    found (some (str s)) = tt
    found (some (arr xs)) = All-keep is_object (elements xs)
    found (some (obj gs)) = tt
extract_findings-All (arr xs) = All-keep is_object (elements xs)
extract_findings-All _ = tt
