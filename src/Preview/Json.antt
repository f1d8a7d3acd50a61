-- ===== src/Preview/Json.antt =====
-- The values of `JSON.parse`, and how frontend/components/ComponentRegistry.tsx reads and renders
-- them. Numbers are whole ones.
use isolator_v_wasm_sandbox.Common.{
  Text, codes, text_eq, Bool, true, false, not, ◌&&◌, Option, none, some, List, [], ◌∷◌,
  if◌then◌else◌, ℤ, is_zero, is_truthy,
}

mutual
  pub data Json : Type 0 where
    null_value : Json
    bool : Bool → Json
    number : ℤ → Json
    string : Text → Json
    array : Items → Json
    object : Fields → Json

  pub data Items : Type 0 where
    nil : Items
    cons : Json → Items → Items

  pub data Fields : Type 0 where
    end : Fields
    field : Text → Json → Fields → Fields

abbrev pub elements : Items → List Json
elements nil = []
elements (cons j js) = j ∷ elements js

-- The array of some values.
abbrev pub items_of : List Json → Items
items_of [] = nil
items_of (j ∷ js) = cons j (items_of js)

abbrev pub lookup : Text → Fields → Option Json
lookup k end = none
lookup k (field name j fs) = if text_eq name k then some j else lookup k fs

abbrev pub truthy : Json → Bool
truthy null_value = false
truthy (bool b) = b
truthy (number n) = not (is_zero n)
truthy (string s) = is_truthy s
truthy (array items) = true
truthy (object fields) = true

-- A property of a value that is not null; `none` is `undefined`.
abbrev pub property : Text → Json → Option Json
property k (object fs) = lookup k fs
property k _ = none

-- React renders a value inside an element unless there is an object in it.
unfoldable mutual
  pub is_child : Json → Bool
  is_child (array items) = are_children items
  is_child (object fields) = false
  is_child _ = true

  pub are_children : Items → Bool
  are_children nil = true
  are_children (cons j js) = is_child j && are_children js

-- A value can be put in a template string, unless an object in it hides `toString`.
unfoldable mutual
  pub has_text : Json → Bool
  has_text (array items) = have_text items
  has_text (object fields) = plain_object fields
  has_text _ = true

  have_text : Items → Bool
  have_text nil = true
  have_text (cons j js) = has_text j && have_text js

  plain_object : Fields → Bool
  plain_object end = true
  plain_object (field name j fs) = not (text_eq name (codes "toString")) && plain_object fs

-- A rendering function returns, or throws.
pub data Rendered {ℓ} (A : Type ℓ) : Type ℓ where
  shown : A → Rendered A
  throws : Rendered A

infixl 5 ◌>>=◌ ◌>>◌
abbrev pub ◌>>=◌ {ℓ κ} : {A : Type ℓ} {B : Type κ} → Rendered A → (A → Rendered B) → Rendered B
shown a >>= f = f a
throws >>= f = throws

abbrev pub ◌>>◌ {ℓ κ} : {A : Type ℓ} {B : Type κ} → Rendered A → Rendered B → Rendered B
m >> k = m >>= λ _. k

-- `j.k`
abbrev pub read : Text → Json → Rendered (Option Json)
read k null_value = throws
read k j = shown (property k j)

-- `a.map(...)` and `a.length`, of which the first throws for all but arrays.
abbrev pub as_array : Option Json → Rendered Items
as_array (some (array items)) = shown items
as_array _ = throws

-- `{j}` inside an element.
abbrev pub as_child : Option Json → Rendered (Option Json)
as_child none = shown none
as_child (some j) = if is_child j then shown (some j) else throws

abbrev pub all_children : Items → Rendered (List Json)
all_children items = if are_children items then shown (elements items) else throws

-- `xs.map(f)` where `f` may throw.
pub map_each {ℓ κ} : {A : Type ℓ} {B : Type κ} → (A → Rendered B) → List A → Rendered (List B)
map_each f [] = shown []
map_each f (x ∷ xs) = do y ← f x; ys ← map_each f xs; shown (y ∷ ys)
