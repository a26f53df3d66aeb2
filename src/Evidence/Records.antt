-- ===== src/Evidence/Records.antt =====
-- The records of evidence.py, and what it calls of hashlib, json, re, uuid and the clock.
use autonomic_obsidian_kb.Prelude.{
  ℕ, zero, suc, String, Bool, Option, List, [], ◌∷◌, eqb, if◌then◌else◌, nat_eq, string_eq, list_eq,
}
use autonomic_obsidian_kb.Models.Json.{Fields}
use Prim.Native.Char.{code}

pub record EvidenceRecord : Type 0 where
  pub evidence_id : String
  pub kind : String
  pub subject : String
  pub repository_id : String
  pub commit : String
  pub path : String
  pub content : String
  pub content_digest : String
  pub observed_at : String
  pub producer : String
  pub metadata : Fields

pub record MemoryOperation (F : Type 0) : Type 0 where
  pub operation_id : String
  pub operation : String
  pub memory_id : String
  pub actor : String
  pub observed_at : String
  pub basis : List String
  pub previous_digest : String
  pub new_digest : String
  pub reason : String
  pub policy_version : String
  pub sequence : ℕ
  pub confidence_before : Option F
  pub confidence_after : Option F
  pub metadata : Fields

-- The dict that the identity of a piece of evidence is the digest of.
pub record Envelope : Type 0 where
  pub kind : String
  pub subject : String
  pub repository_id : String
  pub commit : String
  pub path : String
  pub content_digest : String
  pub producer : String
  pub metadata : Fields

abbrev pub valid_operations : List String
valid_operations =
    "ADD" ∷ "AMEND" ∷ "SUPERSEDE" ∷ "RETRACT" ∷ "MERGE" ∷ "SPLIT" ∷ "REVALIDATE" ∷ "QUARANTINE"
    ∷ "ARCHIVE" ∷ "NOOP" ∷ []

-- sha256_text, stable_json of an envelope, the json of a record and back, none where it does not
-- decode; the digest of an identity, where re.fullmatch finds evidence:sha256: and 64 hexadecimal
-- digits; whether `reject_secrets` finds a secret.
pub record EvidenceCodec : Type 1 where
  -- the texts of files
  pub Content : Type 0
  pub sha256 : String → String
  pub stable_json : Envelope → String
  pub encode : EvidenceRecord → Content
  pub decode : Content → Option EvidenceRecord
  pub digest_of_id : String → Option String
  pub has_secret : EvidenceRecord → Bool

pub record OperationCodec (F : Type 0) : Type 1 where
  pub Content : Type 0
  pub encode : MemoryOperation F → Content
  pub decode : Content → Option (MemoryOperation F)
  pub has_secret : MemoryOperation F → Bool
  -- str.upper
  pub upper : String → String

-- The first n characters: s[:n]
unfoldable pub first_chars : ℕ → String → String
first_chars zero s = ""
first_chars (suc n) String.[] = ""
first_chars (suc n) (String.◌∷◌ c s) = String.◌∷◌ c (first_chars n s)

-- s[n:]
unfoldable pub drop_chars : ℕ → String → String
drop_chars zero s = s
drop_chars (suc n) String.[] = ""
drop_chars (suc n) (String.◌∷◌ c s) = drop_chars n s

-- s.replace(":", "")
unfoldable pub without_colons : String → String
without_colons String.[] = ""
without_colons (String.◌∷◌ c s) =
    let rest = without_colons s in if eqb (code c) 58 then rest else String.◌∷◌ c rest
