-- ===== src/Learning/Duplicate.antt =====
-- `Learner._applicability` and `Learner._near_duplicate` of learning.py. `same` is == on JSON values,
-- `jaccard` the function of util.py, which splits its texts by a regular expression.
use autonomic_obsidian_kb.Prelude.{
  String, Bool, not, ◌&&◌, ◌||◌, Option, none, some, List, [], ◌∷◌, if◌then◌else◌, ◌==◌, nat_eq,
  string_eq, list_eq, is_in, is_set, strip, text_le,
}
use autonomic_obsidian_kb.Prelude.Sort.{sort}
use autonomic_obsidian_kb.Models.Json.{Value, Items, Fields, get}
use autonomic_obsidian_kb.Models.Json.Value.{null, text, arr, obj}
use autonomic_obsidian_kb.Models.Json.Items.{no_items, item}
use autonomic_obsidian_kb.Models.Json.Fields.{no_fields, field}
use autonomic_obsidian_kb.Models.Floats.{Floats}
use autonomic_obsidian_kb.Models.Note.{Note}
use autonomic_obsidian_kb.Learning.Candidate.{LearningCandidate}

-- What `inspect_git` says of the repository.
pub record GitContext : Type 0 where
  pub root : String
  pub repository_id : String
  pub branch : String
  pub head : String

abbrev pub texts : List String → Items
texts [] = no_items
texts (s ∷ ss) = item (text s) (texts ss)

abbrev pub values : List Value → Items
values [] = no_items
values (v ∷ vs) = item v (values vs)

-- The dicts of the dependencies.
abbrev pub dependency_items : List (String × String) → Items
dependency_items [] = no_items
dependency_items ((path, sha256) ∷ rest) =
    item (obj (field "path" (text path) (field "sha256" (text sha256) no_fields)))
      (dependency_items rest)

pub data Kind : Type 0 where
  conflict same_claim exact : Kind

module _ (fl : Floats) where
  open fl use {F, decimal}

  unfoldable pub applicability : GitContext → LearningCandidate F → Value
  unfolding sort
  applicability git c = obj (
      field "repository_id" (text git.repository_id) (
        field "branch" (text (if c.scope == "branch" then git.branch else "")) (
          field "applies_to" (arr (texts (sort text_le c.applies_to))) (
            field "preconditions" (arr (texts c.preconditions)) (
              field "valid_from" (text c.valid_from) (
                field "valid_to" (text c.valid_to) (
                  field "version_range" (text c.version_range) (
                    field "version_package" (text c.version_package) (
                      field "dependencies" (arr (dependency_items c.dependencies))
                        no_fields)))))))))

  pub record Match : Type 0 where
    pub note : Note F
    pub kind : Kind
    pub similarity : F

  module _ (same : Value → Value → Bool) (jaccard : String → String → F) where
    -- metadata.get(key) == v
    unfoldable pub value_is : String → Value → Fields → Bool
    unfolding get
    value_is key v metadata = elim (get key metadata) [ none ↦ same null v | some w ↦ same w v ]

    -- metadata.get("verification", "") == verification
    unfoldable pub verification_is : String → Fields → Bool
    unfolding get
    verification_is verification metadata = elim (get "verification" metadata) [
      | none ↦ same (text "") (text verification)
      | some w ↦ same w (text verification)
    ]

    unfoldable pub match_of : Note F → Kind → F → Option Match
    match_of note kind similarity =
        some record { note = note; kind = kind; similarity = similarity }

    -- One turn of the loop of `_near_duplicate`.
    unfoldable pub compare_note : GitContext → LearningCandidate F → Note F → Option Match
    unfolding value_is verification_is applicability match_of strip
    compare_note git c note =
        let metadata = note.metadata in
        let claims = is_set c.claim_key && value_is "claim_key" (text c.claim_key) metadata in
        let agrees = value_is "claim_value" c.claim_value metadata in
        let wanted = if is_set c.detail then c.detail else c.summary in
        if not (note.scope == c.scope) || not (note.memory_type == c.memory_type)
        then none
        else if not (value_is "applicability" (applicability git c) metadata)
        then none
        else if claims && not agrees
        then match_of note conflict (decimal 0 1)
        else if not (verification_is c.verification metadata)
        then none
        else if not (strip (note.layer 2) == strip wanted)
        then none
        else if claims
        then match_of note (if agrees then same_claim else conflict)
            (jaccard c.summary note.summary)
        else if strip c.summary == strip note.summary
        then match_of note exact (decimal 10 1)
        else none

    -- The loop, over the notes of the index whose status is active, inbox, stale or conflicted.
    unfoldable pub near_duplicate : GitContext → LearningCandidate F → List (Note F) → Option Match
    unfolding compare_note
    near_duplicate git c [] = none
    near_duplicate git c (note ∷ notes) =
        let rest = near_duplicate git c notes in
        if is_in note.status ("active" ∷ "inbox" ∷ "stale" ∷ "conflicted" ∷ [])
        then elim (compare_note git c note) [ none ↦ rest | some found ↦ some found ]
        else rest
