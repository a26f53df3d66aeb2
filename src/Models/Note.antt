-- ===== src/Models/Note.antt =====
-- A row of the index's table `notes` (`KnowledgeIndex._row`): what the gates and the ranking read.
use autonomic_obsidian_kb.Prelude.{ℕ, String, Bool, Option}
use autonomic_obsidian_kb.Models.Json.{Fields}

pub record Note (F : Type 0) : Type 0 where
  pub id : String
  pub declared_id : String
  pub path : String
  pub title : String
  pub memory_type : String
  pub scope : String
  pub status : String
  pub summary : String
  pub confidence : F
  pub authority : String
  pub repo : String
  pub repository_id : String
  pub project : String
  pub module_name : String
  pub branch : String
  pub freshness : String
  pub valid_from : String
  pub valid_to : String
  pub as_of_commit : String
  pub version_range : String
  pub taint : String
  pub authorized_instruction : Bool
  pub token_cost : ℕ
  -- the columns l0 to l4
  pub layer : ℕ → String
  pub body : String
  pub metadata : Fields
  pub source_hash : String
  pub schema_valid : Bool
  -- the verdict of the content scan, where the row has one
  pub unsafe : Option Bool
