-- ===== src/Evidence/Verified.antt =====
-- What `get` of the evidence store of evidence.py promises.
use autonomic_obsidian_kb.Prelude.{
  String, ◌≡◌, refl, sym, ap, ◌∙◌, subst, inl, inr, false, Option, none, some, arith, Bool-cases,
  ◌==◌, eq_refl, eq_of_test, nat_eq, string_eq, list_eq, lookup, insert, lookup-insert_self, ok,
  append,
}
use autonomic_obsidian_kb.Evidence.Records.{EvidenceRecord, Envelope, EvidenceCodec}
use autonomic_obsidian_kb.Evidence.Store.{
  Directory, id_prefix, path_of, envelope, put, checked, get_at, decoded_checked, read_checked, get,
}

module _ (codec : EvidenceCodec) where
  open codec use {Content, sha256, stable_json, encode, decode, digest_of_id, has_secret}

  checked_sound :
      (evidence_id digest : String) (r s : EvidenceRecord)
      → checked codec evidence_id digest r ≡ some s
      → (s.evidence_id ≡ evidence_id)
        × (s.content_digest ≡ sha256 s.content)
        × (digest ≡ sha256 (stable_json (envelope codec s)))
  unfolding checked
  checked_sound evidence_id digest r s h = elim (Bool-cases (r.evidence_id == evidence_id)) [
    | inr e ↦ ground arith
    | inl e ↦ elim (Bool-cases (r.content_digest == sha256 r.content)) [
      | inr f ↦ ground arith
      | inl f ↦ elim (Bool-cases (digest == sha256 (stable_json (envelope codec r)))) [
        | inr g ↦ ground arith
        | inl g ↦
            let same : r ≡ s = ground arith in
            subst
              (λ t.
                (t.evidence_id ≡ evidence_id)
                × (t.content_digest ≡ sha256 t.content)
                × (digest ≡ sha256 (stable_json (envelope codec t))))
              same
              (
                eq_of_test r.evidence_id evidence_id e,
                eq_of_test r.content_digest (sha256 r.content) f,
                eq_of_test digest (sha256 (stable_json (envelope codec r))) g,
              )
      ]
    ]
  ]

  decoded_sound :
      (evidence_id digest : String) (o : Option EvidenceRecord) (s : EvidenceRecord)
      → decoded_checked codec evidence_id digest o ≡ some s
      → (s.evidence_id ≡ evidence_id)
        × (s.content_digest ≡ sha256 s.content)
        × (digest ≡ sha256 (stable_json (envelope codec s)))
  unfolding decoded_checked
  decoded_sound evidence_id digest none s h = cc
  decoded_sound evidence_id digest (some r) s h = checked_sound evidence_id digest r s h

  read_sound :
      (evidence_id digest : String) (o : Option Content) (s : EvidenceRecord)
      → read_checked codec evidence_id digest o ≡ some s
      → (s.evidence_id ≡ evidence_id)
        × (s.content_digest ≡ sha256 s.content)
        × (digest ≡ sha256 (stable_json (envelope codec s)))
  unfolding read_checked
  read_sound evidence_id digest none s h = cc
  read_sound evidence_id digest (some content) s h =
      decoded_sound evidence_id digest (decode content) s h

  get_sound :
      (evidence_id : String) (o : Option String) (files : Directory codec) (s : EvidenceRecord)
      → get_at codec evidence_id o files ≡ some s
      → (s.evidence_id ≡ evidence_id)
        × (s.content_digest ≡ sha256 s.content)
        × (o ≡ some (sha256 (stable_json (envelope codec s))))
  unfolding get_at
  get_sound evidence_id none files s h = cc
  get_sound evidence_id (some digest) files s h =
      let (a, b, c) = read_sound evidence_id digest (lookup (path_of codec digest) files) s h in
      (a, b, ap some c)

module _ (codec : EvidenceCodec) where
  open codec use {Content, sha256, stable_json, encode, decode, digest_of_id, has_secret}

  -- The record that `put` makes of its arguments.
  abbrev pub stored : EvidenceRecord → EvidenceRecord
  stored given =
      let digested = record given { content_digest = sha256 given.content } in
      record digested {
        evidence_id = append id_prefix (sha256 (stable_json (envelope codec digested)));
      }

read-stored :
    (codec : EvidenceCodec)
    → ((r : EvidenceRecord) → codec.decode (codec.encode r) ≡ some r)
    → (given : EvidenceRecord)
    → read_checked codec
        (stored codec given).evidence_id
        (codec.sha256 (codec.stable_json (envelope codec (stored codec given))))
        (some (codec.encode (stored codec given)))
      ≡ some (stored codec given)
unfolding read_checked decoded_checked checked
read-stored codec decode-encode given =
    let r = stored codec given in
    let digest = codec.sha256 (codec.stable_json (envelope codec r)) in
    ap (decoded_checked codec r.evidence_id digest) (decode-encode r)
    ∙ rw (eq_refl (append id_prefix digest), eq_refl (codec.sha256 given.content), eq_refl digest)
        refl

-- Two readings of one identity, from any two directories, whoever wrote into them, agree in all but
-- the time of observation, where the digests of the two contents do not collide, nor those of the two
-- envelopes.
pub get_authentic :
    (codec : EvidenceCodec)
    → (evidence_id : String) (files others : Directory codec) (r s : EvidenceRecord)
    → (codec.sha256 r.content ≡ codec.sha256 s.content → r.content ≡ s.content)
    → (codec.sha256 (codec.stable_json (envelope codec r))
          ≡ codec.sha256 (codec.stable_json (envelope codec s))
        → envelope codec r ≡ envelope codec s)
    → get codec evidence_id files ≡ some r
    → get codec evidence_id others ≡ some s
    → r ≡ record s { observed_at = r.observed_at }
unfolding get
get_authentic codec evidence_id files others r s same_content same_envelope hr hs =
    let (ri, rc, re) = get_sound codec evidence_id (codec.digest_of_id evidence_id) files r hr in
    let (si, sc, se) = get_sound codec evidence_id (codec.digest_of_id evidence_id) others s hs in
    let digests : codec.sha256 (codec.stable_json (envelope codec r))
        ≡ codec.sha256 (codec.stable_json (envelope codec s)) =
      cc in
    let envelopes = same_envelope digests in
    let contents : codec.sha256 r.content ≡ codec.sha256 s.content =
      sym rc ∙ ap Envelope.content_digest envelopes ∙ sc in
    let content : r.content ≡ s.content = same_content contents in
    λ i. record {
      evidence_id = (ri ∙ sym si) i;
      kind = (envelopes i).kind;
      subject = (envelopes i).subject;
      repository_id = (envelopes i).repository_id;
      commit = (envelopes i).commit;
      path = (envelopes i).path;
      content = content i;
      content_digest = (envelopes i).content_digest;
      observed_at = r.observed_at;
      producer = (envelopes i).producer;
      metadata = (envelopes i).metadata;
    }

-- Evidence without secrets whose file is not there is stored, and the identity that `put` answers
-- then reads back as the record that it answers, which holds the content given and its digest.
pub put-get :
    (codec : EvidenceCodec)
    → ((s : String)
        → codec.digest_of_id (append id_prefix (codec.sha256 s)) ≡ some (codec.sha256 s))
    → ((r : EvidenceRecord) → codec.decode (codec.encode r) ≡ some r)
    → (given : EvidenceRecord) (files : Directory codec) → codec.has_secret given ≡ false
    → lookup
        (path_of codec (codec.sha256 (codec.stable_json (envelope codec (stored codec given)))))
        files
      ≡ none
    → (r : EvidenceRecord) × (after : Directory codec) × (put codec given files ≡ ok (r, after))
      × (get codec r.evidence_id after ≡ some r)
      × (r.content ≡ given.content)
      × (r.content_digest ≡ codec.sha256 given.content)
unfolding put get get_at
put-get codec ids decode-encode given files clean absent =
    let r = stored codec given in
    let digest = codec.sha256 (codec.stable_json (envelope codec r)) in
    let after = insert (path_of codec digest) (codec.encode r) files in
    (
      r,
      after,
      rw (clean, absent) refl,
      rw
          (
            ids (codec.stable_json (envelope codec r)),
            lookup-insert_self (path_of codec digest) (codec.encode r) files,
          )
          (read-stored codec decode-encode given),
      refl,
      refl,
    )
