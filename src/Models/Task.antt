-- ===== src/Models/Task.antt =====
-- `TaskContext` of models.py. `task_hash` is the property of that name, which hashes the task.
use autonomic_obsidian_kb.Prelude.{String, List}

pub record TaskContext : Type 0 where
  pub task : String
  pub task_hash : String
  pub repo : String
  pub repository_id : String
  pub project : String
  pub module_name : String
  pub branch : String
  pub head : String
  pub changed_paths : List String
  pub requested_paths : List String
  pub agent : String
  pub session : String
  pub task_types : List String
  pub risk : String
  pub at : String
  pub versions : List (String × String)
