-- ===== src/Api/Json.antt =====
-- The values that `JSON.parse` returns and `JSON.stringify` is given, as web/src/lib/api.ts uses
-- them. A number is a natural one: the client sends no other, and reads none from a reply.
use mirocraft.Prelude.{Bool, ℕ, List, [], ◌∷◌, Option, none, some, if◌then◌else◌}
use mirocraft.Prelude.{true, false, ◌++◌, Text, codes, decimal, ◌===◌, ◌==◌, not, is_empty}

-- `undefined` is a value of the language, and no JSON.
mutual
  pub data Json : Type 0 where
    undefined null : Json
    boolean : Bool → Json
    num : ℕ → Json
    str : Text → Json
    arr : Items → Json
    obj : Fields → Json

  pub data Items : Type 0 where
    nil : Items
    cons : Json → Items → Items

  pub data Fields : Type 0 where
    end : Fields
    field : Text → Json → Fields → Fields

-- `value.name`, where the value is neither null nor undefined.
unfoldable pub member : Text → Fields → Json
member name end = undefined
member name (field k v fs) = if k === name then v else member name fs

unfoldable pub property : Text → Json → Json
unfolding member
property name (obj fs) = member name fs
property name other = undefined

-- `value?.name` reads as `property` does: a value without the property gives `undefined`, and so
-- does null.

-- `a ?? b`
abbrev pub nullish : Json → Json → Json
nullish undefined d = d
nullish null d = d
nullish j d = j

-- A value that a test takes for true.
abbrev pub truthy : Json → Bool
truthy undefined = false
truthy null = false
truthy (boolean b) = b
truthy (num n) = if n == 0 then false else true
truthy (str t) = not (is_empty t)
truthy other = true

-- Object literals. `JSON.stringify` leaves out a field whose value is undefined.
unfoldable pub fields : List (Text × Json) → Fields
fields [] = end
fields ((k, v) ∷ kvs) = field k v (fields kvs)

unfoldable pub record_of : List (Text × Text) → Fields
record_of [] = end
record_of ((k, v) ∷ kvs) = field k (str v) (record_of kvs)

unfoldable pub texts : List Text → Items
texts [] = nil
texts (t ∷ ts) = cons (str t) (texts ts)

abbrev pub optional {ℓ} : {A : Type ℓ} → Text → (A → Json) → Option A → List (Text × Json)
optional k to none = []
optional k to (some a) = (k, to a) ∷ []

abbrev pub entry : Text → Json → List (Text × Json)
entry k v = (k, v) ∷ []

abbrev pub object : List (Text × Json) → Json
object kvs = obj (fields kvs)

-- A missing element of an array is an empty text when the array is joined.
abbrev item_text : Json → Text → Text
item_text undefined t = []
item_text null t = []
item_text j t = t

-- `String(value)`: an array's elements are joined by commas.
unfoldable mutual
  pub to_text : Json → Text
  to_text undefined = codes "undefined"
  to_text null = codes "null"
  to_text (boolean true) = codes "true"
  to_text (boolean false) = codes "false"
  to_text (num n) = decimal n
  to_text (str t) = t
  to_text (arr is) = join_items is
  to_text (obj fs) = codes "[object Object]"

  pub join_items : Items → Text
  join_items nil = []
  join_items (cons j is) = item_text j (to_text j) ++ tail_text is

  pub tail_text : Items → Text
  tail_text nil = []
  tail_text (cons j is) = codes "," ++ item_text j (to_text j) ++ tail_text is
