-- ===== src/Evidence/Store.antt =====
-- `EvidenceStore` of evidence.py: a directory of texts by path.
use autonomic_obsidian_kb.Prelude.{
  String, Bool, not, ◌||◌, Option, none, some, List, if◌then◌else◌, is_some, ◌==◌, nat_eq,
  string_eq, list_eq, lookup, insert, value_error, Result, ok, raise_if, append,
}
use autonomic_obsidian_kb.Evidence.Records.{EvidenceRecord, Envelope, EvidenceCodec, first_chars}

abbrev pub Directory : EvidenceCodec → Type 0
Directory codec = List (String × codec.Content)

abbrev pub id_prefix : String
id_prefix = "evidence:sha256:"

module _ (codec : EvidenceCodec) where
  open codec use {Content, sha256, stable_json, encode, decode, digest_of_id, has_secret}

  unfoldable pub path_of : String → String
  unfolding first_chars
  path_of digest = append (first_chars 2 digest) (append "/" (append digest ".json"))

  abbrev pub envelope : EvidenceRecord → Envelope
  envelope r = record {
    kind = r.kind;
    subject = r.subject;
    repository_id = r.repository_id;
    commit = r.commit;
    path = r.path;
    content_digest = r.content_digest;
    producer = r.producer;
    metadata = r.metadata;
  }

  -- The dict that `get` builds of a record that it read.
  abbrev pub read_envelope : EvidenceRecord → Envelope
  read_envelope r = record {
    kind = r.kind;
    subject = r.subject;
    repository_id = r.repository_id;
    commit = r.commit;
    path = r.path;
    content_digest = r.content_digest;
    producer = r.producer;
    metadata = r.metadata;
  }

  -- `put`, on the record of its arguments: of `given`, the identity and the digest are ignored
  unfoldable pub put : EvidenceRecord → Directory codec → Result (EvidenceRecord × Directory codec)
  unfolding path_of lookup insert
  put given files =
      let digested = record given { content_digest = sha256 given.content } in
      let digest = sha256 (stable_json (envelope digested)) in
      let r : EvidenceRecord = record digested { evidence_id = append id_prefix digest } in
      raise_if (has_secret given) (value_error "refusing to persist secret-bearing content") (
        ok (
          r,
          if is_some (lookup (path_of digest) files)
              then files
              else insert (path_of digest) (encode r) files,
        ))

  unfoldable pub path_for : String → Option String
  unfolding path_of
  path_for evidence_id = elim (digest_of_id evidence_id) [
    | none ↦ none
    | some digest ↦ some (path_of digest)
  ]

  -- The checks of `get` on the record that it read.
  unfoldable pub checked : String → String → EvidenceRecord → Option EvidenceRecord
  checked evidence_id digest r =
      if not (r.evidence_id == evidence_id) || not (r.content_digest == sha256 r.content)
      then none
      else if not (digest == sha256 (stable_json (read_envelope r)))
      then none
      else some r

  unfoldable pub decoded_checked : String → String → Option EvidenceRecord → Option EvidenceRecord
  unfolding checked
  decoded_checked evidence_id digest none = none
  decoded_checked evidence_id digest (some r) = checked evidence_id digest r

  unfoldable pub read_checked : String → String → Option Content → Option EvidenceRecord
  unfolding decoded_checked
  read_checked evidence_id digest none = none
  read_checked evidence_id digest (some content) =
      decoded_checked evidence_id digest (decode content)

  -- The part of `get` after the digest of the identity.
  unfoldable pub get_at : String → Option String → Directory codec → Option EvidenceRecord
  unfolding read_checked lookup path_of
  get_at evidence_id none files = none
  get_at evidence_id (some digest) files =
      read_checked evidence_id digest (lookup (path_of digest) files)

  unfoldable pub get : String → Directory codec → Option EvidenceRecord
  unfolding get_at
  get evidence_id files = get_at evidence_id (digest_of_id evidence_id) files

  unfoldable pub verify : String → Directory codec → Bool
  unfolding get
  verify evidence_id files = is_some (get evidence_id files)
