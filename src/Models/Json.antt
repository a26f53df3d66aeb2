-- ===== src/Models/Json.antt =====
-- JSON values, as frontmatter and the stores hold them.
use autonomic_obsidian_kb.Prelude.{
  String, ◌≡◌, refl, ◌∙◌, Bool, true, false, Option, none, some, List, [], ◌∷◌, arith,
  if◌then◌else◌, is_some, ◌==◌, eq_iff, eq_refl, nat_eq, string_eq, list_eq, is_set,
}

mutual
  -- A number is whether it is zero, and its text.
  pub data Value : Type 0 where
    null : Value
    flag : Bool → Value
    num : Bool → String → Value
    text : String → Value
    arr : Items → Value
    obj : Fields → Value

  -- the elements of a list
  pub data Items : Type 0 where
    no_items : Items
    item : Value → Items → Items

  -- the entries of a dict, in their order
  pub data Fields : Type 0 where
    no_fields : Fields
    field : String → Value → Fields → Fields

-- d.get(key)
unfoldable pub get : String → Fields → Option Value
get key no_fields = none
get key (field k v rest) = if k == key then some v else get key rest

unfoldable pub to_list : Items → List Value
to_list no_items = []
to_list (item v rest) = v ∷ to_list rest

has_items : Items → Bool
has_items no_items = false
has_items (item v rest) = true

has_fields : Fields → Bool
has_fields no_fields = false
has_fields (field k v rest) = true

-- bool(v)
unfoldable pub truthy : Value → Bool
unfolding has_items has_fields
truthy null = false
truthy (flag b) = b
truthy (num zero_value literal) = if zero_value then false else true
truthy (text s) = is_set s
truthy (arr items) = has_items items
truthy (obj fields) = has_fields fields

-- str(v); `render` writes a list or a dict
unfoldable pub show : (Value → String) → Value → String
show render null = "None"
show render (flag b) = if b then "True" else "False"
show render (num zero_value literal) = literal
show render (text s) = s
show render v = render v

-- d.get(key) or ""
unfoldable pub get_set : String → Fields → Option Value
unfolding get truthy
get_set key d = elim (get key d) [ none ↦ none | some v ↦ if truthy v then some v else none ]

-- str(d.get(key, ""))
unfoldable pub text_at : (Value → String) → String → Fields → String
unfolding get show
text_at render key d = elim (get key d) [ none ↦ "" | some v ↦ show render v ]

-- key in d
unfoldable pub has : String → Fields → Bool
unfolding get
has key d = is_some (get key d)

-- d[key] = v: a key that is there keeps its place
unfoldable pub set : String → Value → Fields → Fields
set key v no_fields = field key v no_fields
set key v (field k w rest) = if k == key then field key v rest else field k w (set key v rest)

-- d.pop(key, None)
unfoldable pub drop : String → Fields → Fields
drop key no_fields = no_fields
drop key (field k v rest) = let kept = drop key rest in if k == key then kept else field k v kept

pub get-set :
    (k j : String) (v : Value) (d : Fields)
    → get j (set k v d) ≡ (if k == j then some v else get j d)
unfolding get set
get-set k j v no_fields = refl
get-set k j v (field i w d) = ground (arith, eq_iff k j, eq_iff i k, eq_iff i j, get-set k j v d)

pub get-set_self : (k : String) (v : Value) (d : Fields) → get k (set k v d) ≡ some v
get-set_self k v d = get-set k k v d ∙ rw (eq_refl k) refl

pub get-set_other :
    (k j : String) (v : Value) (d : Fields) → (k == j) ≡ false → get j (set k v d) ≡ get j d
get-set_other k j v d h = get-set k j v d ∙ rw h refl

pub get-drop : (k j : String) (d : Fields) → get j (drop k d) ≡ (if k == j then none else get j d)
unfolding get drop
get-drop k j no_fields = ground arith
get-drop k j (field i w d) = ground (arith, eq_iff k j, eq_iff i k, eq_iff i j, get-drop k j d)
