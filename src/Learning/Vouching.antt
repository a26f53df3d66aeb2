-- ===== src/Learning/Vouching.antt =====
-- What a submission of learning.py must meet to create an active memory.
use autonomic_obsidian_kb.Prelude.{
  ◌<◌, All, append, String, ◌≡◌, ◌≢◌, ◌⊎◌, Bool, true, false, not, Option, List, if◌then◌else◌,
  nat_eq, string_eq, list_eq, is_in, Result, ok,
}
use autonomic_obsidian_kb.Models.Floats.{Floats}
use autonomic_obsidian_kb.Models.Note.{Note}
use autonomic_obsidian_kb.Gate.Trust.{instruction_authorized, trusted_authorities, taint_rank}
use autonomic_obsidian_kb.Evidence.Records.{EvidenceCodec, OperationCodec}
use autonomic_obsidian_kb.Learning.Candidate.{LearningCandidate, score}
use autonomic_obsidian_kb.Learning.Duplicate.{GitContext, Match, Kind}
use autonomic_obsidian_kb.Learning.Status.{Policy}
use autonomic_obsidian_kb.Learning.Sources.{LearnCalls, Outcome, scanned_text}
use autonomic_obsidian_kb.Learning.Checked.{SourcesInside, Corroborated, Undisputed}
use autonomic_obsidian_kb.Learning.Remember.{is_conflict}
use autonomic_obsidian_kb.Learning.Sources.Outcome.{created_note}

module _ (fl : Floats) where
  -- Why a candidate is active.
  pub record Approved (policy : Policy fl.F) (findings : Bool) (memory_type : String)
      (authorized : Bool × String) (contradicts force : Bool) (value : fl.F) : Type 0 where
    pub clean : findings ≡ false
    pub instructed : (memory_type ≢ "agent-instruction") ⊎ (authorized.0 ≡ true)
    pub agreed : contradicts ≡ false
    pub vouching : policy.allow_privileged_remember ≡ true
    pub worth : (force ≡ true) ⊎ (fl.le policy.promotion_threshold value ≡ true)

  -- The decision with its tests and reasons named.
  abbrev chosen : (a b c d e f : Bool) (r₁ r₂ r₃ r₄ r₅ r₆ r₇ : String) → String × String
  chosen a b c d e f r₁ r₂ r₃ r₄ r₅ r₆ r₇ =
      if a
      then ("quarantined", r₁)
      else if b
      then ("inbox", r₂)
      else if c
      then ("conflicted", r₃)
      else if not d
      then ("inbox", r₄)
      else if e
      then ("active", r₅)
      else if f
      then ("active", r₆)
      else ("inbox", r₇)

module _ (fl : Floats) (calls : LearnCalls fl.F) (ec : EvidenceCodec) (oc : OperationCodec fl.F)
    (policy : Policy fl.F) (git : GitContext) (repo_name utc_now uuid : String)
    (sources : List String → LearningCandidate fl.F → String) (force : Bool)
    (rows : List (Note fl.F)) where
  -- Why a submission created an active memory.
  pub Earned : Option (Match fl) → LearningCandidate fl.F → Type 0
  Earned duplicate c =
      Approved fl policy (calls.has_findings (scanned_text fl calls ec oc c)) c.memory_type
        (instruction_authorized c.memory_type c.authority c.authorized_instruction c.taint)
        (is_conflict fl calls ec oc duplicate) force (score fl c)

  -- What a submission that created a note created.
  OutcomeStatus : {A : Type 0} → Result (Outcome fl.F × A) → String → Type 0
  OutcomeStatus (ok (created_note n, s)) status = n.status ≡ status
  OutcomeStatus _ status = Unit {0}

  NotCreated : {A : Type 0} → Result (Outcome fl.F × A) → Type 0
  NotCreated (ok (created_note n, s)) = ⊥
  NotCreated _ = Unit {0}

-- What a candidate, with the dependencies bound to it, has earned.
pub record Vouched (fl : Floats) (calls : LearnCalls fl.F) (ec : EvidenceCodec)
    (oc : OperationCodec fl.F) (policy : Policy fl.F) (repo : Option String) (git : GitContext)
    (force : Bool) (rows : List (Note fl.F)) (candidate : LearningCandidate fl.F)
    (files : List (String × ec.Content)) (dependencies : List (String × String)) : Type 0 where
  pub sources : SourcesInside fl calls ec oc repo candidate.provenance
  pub evidence : All (Corroborated fl calls ec oc git.repository_id files) candidate.evidence
  pub clean :
      calls.has_findings (
        append candidate.title
          (append "\n" (append candidate.summary (append "\n" candidate.detail))))
      ≡ false
  pub instructed :
      (candidate.memory_type ≢ "agent-instruction")
      ⊎ ((candidate.authorized_instruction ≡ true)
          × (is_in candidate.authority trusted_authorities ≡ true)
          × (taint_rank candidate.taint < taint_rank "external"))
  pub undisputed :
      All (Undisputed fl calls ec oc git (record candidate { dependencies = dependencies })) rows
  pub vouching : policy.allow_privileged_remember ≡ true
  pub worth : (force ≡ true) ⊎ (fl.le policy.promotion_threshold (score fl candidate) ≡ true)
