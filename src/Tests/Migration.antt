-- ===== src/Tests/Migration.antt =====
-- The migration of the metadata of a note of the first version.
use autonomic_obsidian_kb.Prelude.{
  ℕ, String, ◌≡◌, refl, false, some, List, [], ◌∷◌, if◌then◌else◌, ◌==◌, nat_eq, string_eq, list_eq,
  value_error, Result, ok, raise,
}
use autonomic_obsidian_kb.Models.Json.{Value, Fields, get}
use autonomic_obsidian_kb.Models.Json.Value.{num, text}
use autonomic_obsidian_kb.Models.Json.Fields.{no_fields, field}
use autonomic_obsidian_kb.Migration.Metadata.{upgrade, version_of, migrate_metadata}
use autonomic_obsidian_kb.Migration.Idempotent.{migrate_metadata_idempotent, migrate_metadata_keeps}

abbrev to_int : Value → Result ℕ
to_int (num b s) = if s == "1" then ok 1 else if s == "2" then ok 2 else raise (value_error "int")
to_int _ = raise (value_error "int")

abbrev render : Value → String
render v = ""

abbrev old : Fields
old =
    field "schema_version" (num false "1")
      (field "id" (text "m1") (field "type" (text "agent-instruction") no_fields))

old_version : version_of render to_int old ≡ ok 1
unfolding version_of
old_version = refl

migrate_metadata_idempotent_example :
    (out : Fields × List String) × (migrate_metadata render to_int "2026-01-01" old ≡ ok out)
    × (migrate_metadata render to_int "2027-01-01" out.0 ≡ ok (out.0, []))
migrate_metadata_idempotent_example =
    migrate_metadata_idempotent render to_int "2026-01-01" "2027-01-01" old 1 refl old_version

old_upgraded :
    migrate_metadata render to_int "2026-01-01" old ≡ ok (upgrade render to_int "2026-01-01" old)
unfolding migrate_metadata version_of
old_upgraded = refl

migrate_metadata_keeps_example :
    get "type" (upgrade render to_int "2026-01-01" old).0 ≡ some (text "agent-instruction")
unfolding get
migrate_metadata_keeps_example =
    migrate_metadata_keeps render to_int "2026-01-01" "type" old (text "agent-instruction")
      (upgrade render to_int "2026-01-01" old) refl refl refl old_upgraded

upgrade_changes :
    (upgrade render to_int "2026-01-01" old).1
    ≡ "schema_version" ∷ "kind" ∷ "validity" ∷ "taint" ∷ "authorized_instruction" ∷ []
unfolding upgrade
upgrade_changes = refl
