-- ===== src/Learning/Status.antt =====
-- The status that `Learner._remember_locked` of learning.py gives a candidate, and its directory.
use autonomic_obsidian_kb.Prelude.{
  String, Bool, not, ◌&&◌, ◌||◌, none, some, List, [], ◌∷◌, if◌then◌else◌, ◌==◌, nat_eq, string_eq,
  list_eq, lookup,
}
use autonomic_obsidian_kb.Models.Floats.{Floats}

-- The settings that the decision reads.
pub record Policy (F : Type 0) : Type 0 where
  pub promotion_threshold : F
  pub allow_privileged_remember : Bool
  pub quarantine_dir : String
  pub inbox_dir : String

abbrev pub type_directories : List (String × String)
type_directories =
    ("architecture", "10-architecture")
    ∷ ("repository-map", "11-maps")
    ∷ ("file-map", "11-maps")
    ∷ ("decision", "12-decisions")
    ∷ ("invariant", "13-invariants")
    ∷ ("command", "20-commands")
    ∷ ("workflow", "21-workflows")
    ∷ ("procedure", "21-workflows")
    ∷ ("known-failure", "30-debugging")
    ∷ ("solution", "30-debugging")
    ∷ ("negative-result", "31-negative-results")
    ∷ ("dependency", "40-dependencies")
    ∷ ("environment", "41-environment")
    ∷ ("api", "50-interfaces")
    ∷ ("interface", "50-interfaces")
    ∷ ("convention", "60-conventions")
    ∷ ("agent-instruction", "70-agent-instructions")
    ∷ ("domain", "80-domain")
    ∷ ("terminology", "80-domain")
    ∷ ("hypothesis", "00-inbox")
    ∷ []

unfoldable pub directory_for_type : String → String
unfolding lookup
directory_for_type memory_type = elim (lookup memory_type type_directories) [
  | none ↦ "81-facts"
  | some directory ↦ directory
]

module _ (fl : Floats) where
  open fl use {F, le}

  -- The status and its reason: `findings` is whether the scan found something, `contradicts` whether
  -- the near duplicate is a conflict.
  unfoldable pub decide_status :
      Policy F
      → (findings : Bool) → (memory_type : String) → (authorized : Bool × String)
      → (contradicts force : Bool) → (score : F) → String × String
  decide_status policy findings memory_type authorized contradicts force score =
      if findings
      then ("quarantined", "content matched prompt-injection or secret patterns")
      else if memory_type == "agent-instruction" && not authorized.0
      then ("inbox", authorized.1)
      else if contradicts
      then (
        "conflicted",
        "contradicts an applicable memory; a reviewer resolves it with `kb supersede`",
      )
      else if not policy.allow_privileged_remember
      then (
        "inbox",
        "review required ([security] allow_privileged_remember = false); a reviewer activates it with `kb promote`",
      )
      else if force
      then ("active", "promotion forced by the caller")
      else if le policy.promotion_threshold score
      then ("active", "candidate score meets the promotion threshold")
      else (
        "inbox",
        "candidate score is below the promotion threshold; attach evidence or have a reviewer run `kb promote`",
      )

  unfoldable pub directory_of : Policy F → String → String → String
  unfolding directory_for_type
  directory_of policy status memory_type =
      if status == "quarantined"
      then policy.quarantine_dir
      else if status == "inbox" || status == "conflicted"
      then policy.inbox_dir
      else directory_for_type memory_type
