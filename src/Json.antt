-- ===== src/Json.antt =====
-- JSON values as `serde_json::Value` has them (its numbers as far as the program writes them),
-- with the accessors that the program calls.
use jetauth.Prelude.{
  Text, text_beq_iff, ℕ, refl, Bool, Option, none, some, List, [], arith, ◌≡◌, ◌∷◌, ◌==◌,
  if◌then◌else◌, text_eq,
}

mutual
  pub data Json : Type 0 where
    null : Json
    bool : Bool → Json
    num : ℕ → Json
    text : Text → Json
    arr : Items → Json
    obj : Fields → Json

  pub data Items : Type 0 where
    nil : Items
    cons : Json → Items → Items

  pub data Fields : Type 0 where
    end : Fields
    field : Text → Json → Fields → Fields

-- A lookup in an object.
unfoldable pub find_field : Fields → Text → Option Json
find_field end key = none
find_field (field k v fs) key = if k == key then some v else find_field fs key

-- `claims[key] = value`
unfoldable pub set_field : Fields → Text → Json → Fields
set_field end key value = field key value end
set_field (field k v fs) key value =
    let rest = set_field fs key value in if k == key then field k value fs else field k v rest

-- `v.get(key)`
abbrev pub get : Json → Text → Option Json
get (obj fs) key = find_field fs key
get _ key = none

-- `v.as_str()`
abbrev pub as_str : Json → Option Text
as_str (text t) = some t
as_str _ = none

-- `v.as_u64()`
abbrev pub as_u64 : Json → Option ℕ
as_u64 (num n) = some n
as_u64 _ = none

abbrev pub items : Items → List Json
items nil = []
items (cons v vs) = v ∷ items vs

-- `v.as_array()`
abbrev pub as_array : Json → Option (List Json)
as_array (arr vs) = some (items vs)
as_array _ = none

-- `json!(texts)`
abbrev pub of_texts : List Text → Items
of_texts [] = nil
of_texts (t ∷ ts) = cons (text t) (of_texts ts)

-- Setting a field is seen by a lookup of that key alone.
pub find_field-set_field :
    (fs : Fields) (k j : Text) (v : Json)
    → find_field (set_field fs k v) j ≡ (if k == j then some v else find_field fs j)
unfolding find_field set_field
find_field-set_field end k j v = refl
find_field-set_field (field i w fs) k j v =
    ground
      (arith, find_field-set_field fs k j v, text_beq_iff i k, text_beq_iff i j, text_beq_iff k j)
