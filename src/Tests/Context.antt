-- ===== src/Tests/Context.antt =====
-- The inventories of two sessions, in files that hold JSON values as they are.
use autonomic_obsidian_kb.Prelude.{
  String, ◌≡◌, refl, Option, none, some, [], ◌∷◌, ne_of_test, nat_eq, string_eq, list_eq, ok, raise,
  attribute_error, lookup,
}
use autonomic_obsidian_kb.Models.Json.{Value, Fields, get, text_at}
use autonomic_obsidian_kb.Models.Json.Value.{text, obj}
use autonomic_obsidian_kb.Models.Json.Fields.{no_fields, field}
use autonomic_obsidian_kb.Context.{
  ContextInventory, InventoryCodec, each, to_dict, read_inventory, get_inventory, acknowledge,
  acknowledge-get_inventory,
}

abbrev codec : InventoryCodec
codec = record {
  Content = Value;
  sha256 = λ s. s;
  write = λ v. v;
  read = λ v. some v;
  render = λ v. "";
  dict_of_pairs = λ items. none;
}

abbrev held : ContextInventory
held = record {
  epoch = "e1";
  revisions = field "m1" (text "r1") no_fields;
  updated_at = "2026-01-01";
}

abbrev newer : Fields
newer = field "m1" (text "r2") no_fields

each_same : (o : Option Value) → o ≡ each (λ v. v) o
each_same none = refl
each_same (some v) = refl

acknowledge-get_inventory_example :
    ((r : Fields) × ((get_inventory codec "s1"
            (acknowledge codec "2026-01-02" "s1" "e2" newer (("s2", obj (to_dict held)) ∷ [])).1
          ≡ ok (some (record { epoch = "e2"; revisions = r; updated_at = "2026-01-02" })))
        × ((memory : String) → get memory r ≡ each (λ v. v) (get memory newer))))
    × (get_inventory codec "s2"
          (acknowledge codec "2026-01-02" "s1" "e2" newer (("s2", obj (to_dict held)) ∷ [])).1
        ≡ get_inventory codec "s2" (("s2", obj (to_dict held)) ∷ []))
acknowledge-get_inventory_example =
    acknowledge-get_inventory codec (λ v. v) (λ v. refl) (λ s. refl)
      (λ d. (d, (refl, λ k. each_same (get k d)))) "2026-01-02" "s1" "e2" "s2" newer
      (("s2", obj (to_dict held)) ∷ []) (ne_of_test "s1" "s2" refl)

held_run : get_inventory codec "s2" (("s2", obj (to_dict held)) ∷ []) ≡ ok (some held)
unfolding get_inventory read_inventory lookup to_dict get text_at
held_run = refl

-- A file that holds no dict makes `get` raise.
text_run : get_inventory codec "s2" (("s2", text "e1") ∷ []) ≡ raise attribute_error
unfolding get_inventory read_inventory lookup
text_run = refl
