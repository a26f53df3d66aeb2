-- ===== src/Context.antt =====
-- context_state.py: what a session acknowledged to hold in its context.
use autonomic_obsidian_kb.Prelude.{
  String, ◌≡◌, refl, ap, ◌∙◌, ◌≢◌, Option, none, some, List, test_of_ne, nat_eq, string_eq, list_eq,
  lookup, insert, lookup-insert, lookup-insert_self, Result, ok, raise, attribute_error, is_set,
  if◌then◌else◌,
}
use autonomic_obsidian_kb.Models.Json.{Value, Items, Fields, get, text_at}
use autonomic_obsidian_kb.Models.Json.Value.{text, arr, obj}
use autonomic_obsidian_kb.Models.Json.Fields.{no_fields, field}

pub record ContextInventory : Type 0 where
  pub epoch : String
  pub revisions : Fields
  pub updated_at : String

-- The digest of a session's name, which names its file; stable_json with its line end, and json.loads,
-- which is none on a text that is no JSON; str of a list or a dict; and dict() of a list of pairs, which
-- is none where it raises.
pub record InventoryCodec : Type 1 where
  pub Content : Type 0
  pub sha256 : String → String
  pub write : Value → Content
  pub read : Content → Option Value
  pub render : Value → String
  pub dict_of_pairs : Items → Option Fields

-- `to_dict`
unfoldable pub to_dict : ContextInventory → Fields
to_dict i =
    field "epoch" (text i.epoch)
      (field "revisions" (obj i.revisions) (field "updated_at" (text i.updated_at) no_fields))

module _ (codec : InventoryCodec) where
  open codec use {Content, sha256, write, read, render, dict_of_pairs}

  -- dict(row.get("revisions", {})), which is none where it raises
  unfoldable dict_of : Option Value → Option Fields
  dict_of none = some no_fields
  dict_of (some v) = elim v [
    | obj d ↦ some d
    | arr items ↦ dict_of_pairs items
    | text s ↦ if is_set s then none else some no_fields
    | _ ↦ none
  ]

  unfoldable inventory_with : Fields → Option Fields → Option ContextInventory
  unfolding text_at
  inventory_with row none = none
  inventory_with row (some revisions) = some (record {
    epoch = text_at render "epoch" row;
    revisions = revisions;
    updated_at = text_at render "updated_at" row;
  })

  -- The row that a file holds; a row that is no dict has no `get`.
  unfoldable inventory_of : Value → Result (Option ContextInventory)
  unfolding inventory_with dict_of get
  inventory_of v = elim v [
    | obj row ↦ ok (inventory_with row (dict_of (get "revisions" row)))
    | _ ↦ raise attribute_error
  ]

  unfoldable decode : Option Value → Result (Option ContextInventory)
  unfolding inventory_of
  decode none = ok none
  decode (some v) = inventory_of v

  unfoldable pub read_inventory : Option Content → Result (Option ContextInventory)
  unfolding decode
  read_inventory none = ok none
  read_inventory (some content) = decode (read content)

  -- `get` of a session
  unfoldable pub get_inventory : String → List (String × Content) → Result (Option ContextInventory)
  unfolding read_inventory lookup
  get_inventory session files = read_inventory (lookup (sha256 session) files)

  -- `acknowledge`, at a time
  unfoldable pub acknowledge :
      String
      → String
      → String
      → Fields
      → List (String × Content)
      → ContextInventory × List (String × Content)
  unfolding insert to_dict
  acknowledge utc_now session epoch revisions files =
      let value : ContextInventory = record {
        epoch = epoch;
        revisions = revisions;
        updated_at = utc_now;
      } in
      (value, insert (sha256 session) (write (obj (to_dict value))) files)

-- What a value becomes where there is one.
abbrev pub each : (Value → Value) → Option Value → Option Value
each f none = none
each f (some v) = some (f v)

module _ (codec : InventoryCodec) (canonical : Value → Value)
    (read-write : (v : Value) → codec.read (codec.write v) ≡ some (canonical v))
    (canonical-text : (s : String) → canonical (text s) ≡ text s)
    (canonical-obj : (d : Fields)
      → (e : Fields) × ((canonical (obj d) ≡ obj e)
          × ((k : String) → get k e ≡ each canonical (get k d)))) where
  -- The dict of an inventory, as it is read.
  decode-to_dict :
      (i : ContextInventory) (row revisions : Fields)
      → get "epoch" row ≡ some (text i.epoch)
      → get "revisions" row ≡ some (obj revisions)
      → get "updated_at" row ≡ some (text i.updated_at)
      → inventory_of codec (obj row)
        ≡ ok (some (record { epoch = i.epoch; revisions = revisions; updated_at = i.updated_at }))
  unfolding inventory_of inventory_with dict_of text_at
  decode-to_dict i row revisions a b c = rw (b, inventory_of) (rw (a, c, text_at) refl)

  pub reads_back :
      (i : ContextInventory)
      → (r : Fields) × ((read_inventory codec (some (codec.write (obj (to_dict i))))
            ≡ ok (some (record { epoch = i.epoch; revisions = r; updated_at = i.updated_at })))
          × ((k : String) → get k r ≡ each canonical (get k i.revisions)))
  unfolding read_inventory decode to_dict get
  reads_back i =
      let (row, (e, at)) = canonical-obj (to_dict i) in
      let (r, (f, entries)) = canonical-obj i.revisions in
      (
        r,
        (
          ap (decode codec) (read-write (obj (to_dict i)) ∙ ap some e)
              ∙ decode-to_dict i row r (at "epoch" ∙ ap some (canonical-text i.epoch))
                  (at "revisions" ∙ ap some f)
                  (at "updated_at" ∙ ap some (canonical-text i.updated_at)),
          entries,
        ),
      )

-- What a session acknowledges reads back as its inventory, with the epoch and the time given and, at each
-- memory, the JSON form of the revision given, and the inventory of a session with another digest stays
-- as it was. JSON that is written reads back in a canonical form, which keeps texts and, in a dict, the
-- keys with their values in that form.
pub acknowledge-get_inventory :
    (codec : InventoryCodec) (canonical : Value → Value)
    → ((v : Value) → codec.read (codec.write v) ≡ some (canonical v))
    → ((s : String) → canonical (text s) ≡ text s)
    → ((d : Fields)
        → (e : Fields) × ((canonical (obj d) ≡ obj e)
            × ((k : String) → get k e ≡ each canonical (get k d))))
    → (utc_now session epoch other : String) (revisions : Fields)
      (files : List (String × codec.Content))
    → codec.sha256 session ≢ codec.sha256 other
    → ((r : Fields) × ((get_inventory codec session
              (acknowledge codec utc_now session epoch revisions files).1
            ≡ ok (some (record { epoch = epoch; revisions = r; updated_at = utc_now })))
          × ((memory : String) → get memory r ≡ each canonical (get memory revisions))))
      × (get_inventory codec other (acknowledge codec utc_now session epoch revisions files).1
          ≡ get_inventory codec other files)
unfolding get_inventory acknowledge
acknowledge-get_inventory codec canonical read-write canonical-text canonical-obj utc_now session
      epoch other revisions files apart =
    let value : ContextInventory = record {
      epoch = epoch;
      revisions = revisions;
      updated_at = utc_now;
    } in
    let content = codec.write (obj (to_dict value)) in
    let (r, (back, entries)) =
      reads_back codec canonical read-write canonical-text canonical-obj value in
    (
      (
        r,
        (
          ap (read_inventory codec) (lookup-insert_self (codec.sha256 session) content files)
              ∙ back,
          entries,
        ),
      ),
      ap (read_inventory codec) (
          lookup-insert (codec.sha256 session) (codec.sha256 other) content files
          ∙ rw (test_of_ne (codec.sha256 session) (codec.sha256 other) apart) refl),
    )
