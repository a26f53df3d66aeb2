-- ===== src/Migration/Metadata.antt =====
-- `migrate_metadata` of migrations.py, and `TYPE_KIND` of models.py.
use autonomic_obsidian_kb.Prelude.{
  ℕ, String, false, none, some, List, [], ◌∷◌, ◌++◌, ltb, if◌then◌else◌, ◌==◌, nat_eq, string_eq,
  list_eq, is_in, lookup, Result, ◌>>=◌, ok, ◌>>=◌,
}
use autonomic_obsidian_kb.Models.Json.{Value, Fields, get, has, set, show, truthy}
use autonomic_obsidian_kb.Models.Json.Value.{flag, num, text, obj}
use autonomic_obsidian_kb.Models.Json.Fields.{no_fields, field}

abbrev pub type_kind : List (String × String)
type_kind =
    ("command", "procedural")
    ∷ ("workflow", "procedural")
    ∷ ("procedure", "procedural")
    ∷ ("solution", "procedural")
    ∷ ("decision", "decision")
    ∷ ("invariant", "constraint")
    ∷ ("known-failure", "failure")
    ∷ ("negative-result", "negative")
    ∷ ("repository-map", "summary")
    ∷ ("file-map", "summary")
    ∷ ("architecture", "summary")
    ∷ ("agent-instruction", "instruction")
    ∷ []

-- Some keys are set where they are missing, and named among the changes.
unfoldable pub set_missing : String → Value → Fields × List String → Fields × List String
unfolding has set
set_missing key v (value, changed) =
    if has key value then (value, changed) else (set key v value, changed ++ key ∷ [])

unfoldable pub set_authorization : String → Fields × List String → Fields × List String
unfolding set_missing
set_authorization memory_type p =
    if memory_type == "agent-instruction"
    then set_missing "authorized_instruction" (flag false) p
    else p

abbrev pub no_validity : Value
no_validity = obj (
    field "valid_from" (text "") (
      field "valid_to" (text "")
        (field "as_of_commit" (text "") (field "version_range" (text "") no_fields))))

-- `to_int` is int(v), and `render` str of a list or a dict.
module _ (render : Value → String) (to_int : Value → Result ℕ) where
  -- str(value.get(key, default))
  unfoldable pub text_or : String → String → Fields → String
  unfolding get show
  text_or key default d = elim (get key d) [ none ↦ default | some v ↦ show render v ]

  unfoldable pub taint_of_authority : String → String
  taint_of_authority authority =
      if is_in authority ("source-of-truth" ∷ "authoritative" ∷ "verified" ∷ "user-corrected" ∷ [])
      then "trusted"
      else if is_in authority ("agent" ∷ "external" ∷ "untrusted" ∷ [])
      then authority
      else "derived"

  unfoldable pub kind_of : String → String
  unfolding lookup
  kind_of memory_type = elim (lookup memory_type type_kind) [ none ↦ "semantic" | some kind ↦ kind ]

  -- int(metadata.get("schema_version", 1) or 1)
  unfoldable pub version_of : Fields → Result ℕ
  unfolding get truthy
  version_of metadata = elim (get "schema_version" metadata) [
    | none ↦ ok 1
    | some v ↦ if truthy v then to_int v else ok 1
  ]

  -- str(value.get("updated") or utc_now())
  unfoldable pub updated_at : String → Fields → String
  unfolding get truthy show
  updated_at utc_now value = elim (get "updated" value) [
    | none ↦ utc_now
    | some v ↦ if truthy v then show render v else utc_now
  ]

  -- The branch of `migrate_metadata` for a version below 2.
  unfoldable pub upgrade : String → Fields → Fields × List String
  unfolding set_missing text_or taint_of_authority kind_of updated_at set set_authorization
  upgrade utc_now metadata =
      let start : Fields × List String =
        (set "schema_version" (num false "2") metadata, "schema_version" ∷ []) in
      let memory_type = text_or "type" "fact" start.0 in
      let kind = set_missing "kind" (text (kind_of memory_type)) start in
      let validity = set_missing "validity" no_validity kind in
      let authority = text_or "authority" "agent" validity.0 in
      let taint = set_missing "taint" (text (taint_of_authority authority)) validity in
      let done = set_authorization memory_type taint in
      (set "updated" (text (updated_at utc_now done.0)) done.0, done.1)

  unfoldable pub migrate_metadata : String → Fields → Result (Fields × List String)
  unfolding version_of upgrade
  migrate_metadata utc_now metadata = version_of metadata >>= λ version.
      ok (if ltb version 2 then upgrade utc_now metadata else (metadata, []))
