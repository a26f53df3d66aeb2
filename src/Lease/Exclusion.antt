-- ===== src/Lease/Exclusion.antt =====
-- Who holds a lease of leases.py, until when, and who may release it.
use autonomic_obsidian_kb.Prelude.{
  ℕ, ◌+◌, ◌*◌, ◌/◌, max, ◌<◌, String, ◌≡◌, refl, sym, ap, ◌∙◌, subst, ◌≢◌, ◌⊎◌, inl, inr, Bool,
  true, false, not, ◌&&◌, ◌||◌, Option, none, some, arith, leb, Bool-cases, &&_iff, ◌==◌, eq_iff,
  eq_refl, eq_of_test, nat_eq, string_eq, list_eq, lookup, insert, remove, lookup-insert,
  lookup-insert_self, lookup-remove, Exception, value_error, ok, raise, raise_if, ok_inj, is_set,
  strip, append,
}
use autonomic_obsidian_kb.Evidence.Records.{first_chars}
use autonomic_obsidian_kb.Lease.Store.{
  TaskLease, LeaseCalls, default_agent, Leases, signature_of, expired, find_decoded, find_content,
  find, new_lease, acquire_found, acquire, release_found, release,
}

-- What leases.py relies on: a shortened digest is a signature; a lease reads back as it was written;
-- a time reads back to the second.
pub record LeaseLaws (calls : LeaseCalls) : Type 0 where
  pub signs : (s : String) → calls.is_signature (first_chars 20 (calls.sha256 s)) ≡ true
  pub decode-encode : (l : TaskLease) → calls.decode (calls.encode l) ≡ some l
  pub parse-isoformat :
      (t : ℕ) → calls.parse_time (calls.isoformat t) ≡ some (t / 1000000 * 1000000)

-- The end of a lease: the minutes, at least one, from now, rounded down to a second.
abbrev pub end_of : ℕ → ℕ → ℕ
end_of now ttl_minutes = (now + 60 * 1000000 * max 1 ttl_minutes) / 1000000 * 1000000

module _ (calls : LeaseCalls) (laws : LeaseLaws calls) where
  open calls use {sha256, lower, is_signature, encode, decode, isoformat, parse_time, has_secret}

  signs_task : (task : String) → is_signature (signature_of calls task) ≡ true
  unfolding signature_of
  signs_task task = laws.signs (lower (strip task))

  find_signed :
      (now : ℕ) (task : String) (leases : Leases calls)
      → find calls now (signature_of calls task) leases
        ≡ find_content calls now
            (signature_of calls task)
            (lookup (signature_of calls task) leases)
            leases
  unfolding find
  find_signed now task leases = rw (signs_task task) refl

  -- A lease that is stored and not expired is found.
  find_stored :
      (now : ℕ) (task : String) (l : TaskLease) (leases : Leases calls)
      → lookup (signature_of calls task) leases ≡ some (encode l)
      → expired calls (parse_time l.expires) now ≡ false
      → find calls now (signature_of calls task) leases ≡ (some l, leases)
  unfolding find_content find_decoded
  find_stored now task l leases stored fresh =
      let signature = signature_of calls task in
      find_signed now task leases
      ∙ ap (λ o. find_content calls now signature o leases) stored
      ∙ ap (λ o. find_decoded calls now signature o leases) (laws.decode-encode l)
      ∙ rw fresh refl

  not_expired :
      (now uuid_time ttl : ℕ) (uuid task agent scope : String)
      → now < end_of uuid_time ttl
      → expired calls (parse_time (new_lease calls uuid_time uuid task agent scope ttl).expires) now
        ≡ false
  unfolding expired new_lease
  not_expired now started ttl uuid task agent scope h =
      ap (λ o. expired calls o now) (laws.parse-isoformat (started + 60 * 1000000 * max 1 ttl))
      ∙ le_false (end_of started ttl) now h
    where
      le_false : (a b : ℕ) → b < a → leb a b ≡ false
      le_false a b k = ground arith

  -- A lease stored by `acquire_found` is found until it ends.
  held :
      (t now ttl : ℕ) (uuid task agent scope : String) (leases : Leases calls)
      → t < end_of now ttl
      → find calls t (signature_of calls task) (
          insert
            (signature_of calls task)
            (encode (new_lease calls now uuid task agent scope ttl))
            leases)
        ≡ (
          some (new_lease calls now uuid task agent scope ttl),
          insert
              (signature_of calls task)
              (encode (new_lease calls now uuid task agent scope ttl))
              leases,
        )
  held t now ttl uuid task agent scope leases h =
      let lease = new_lease calls now uuid task agent scope ttl in
      find_stored t task lease (insert (signature_of calls task) (encode lease) leases)
        (lookup-insert_self (signature_of calls task) (encode lease) leases)
        (not_expired t now ttl uuid task agent scope h)

  -- Looking for a lease touches no other lease.
  find_decoded_others :
      (now : ℕ) (signature other : String) (o : Option TaskLease) (leases : Leases calls)
      → (signature == other) ≡ false
      → lookup other (find_decoded calls now signature o leases).1 ≡ lookup other leases
  unfolding find_decoded
  find_decoded_others now signature other none leases h = refl
  find_decoded_others now signature other (some l) leases h =
      elim (Bool-cases (expired calls (parse_time l.expires) now)) [
        | inl e ↦ rw e (lookup-remove signature other leases ∙ rw h refl)
        | inr e ↦ rw e refl
      ]

  find_others :
      (now : ℕ) (task other : String) (leases : Leases calls)
      → (signature_of calls task == other) ≡ false
      → lookup other (find calls now (signature_of calls task) leases).1 ≡ lookup other leases
  unfolding find_content
  find_others now task other leases h =
      ap (λ (p : Option TaskLease × Leases calls). lookup other p.1) (find_signed now task leases)
      ∙ by_content (lookup (signature_of calls task) leases)
    where
      by_content :
          (o : Option calls.Content)
          → lookup other (find_content calls now (signature_of calls task) o leases).1
            ≡ lookup other leases
      by_content none = refl
      by_content (some content) =
          find_decoded_others now (signature_of calls task) other (decode content) leases h

free_found :
    (calls : LeaseCalls) (lease : TaskLease) (found : Option TaskLease × Leases calls)
    → found.0 ≡ none
    → acquire_found calls found lease
      ≡ ok (lease, insert lease.task_signature (calls.encode lease) found.1)
unfolding acquire_found
free_found calls lease (none, leases) h = refl
free_found calls lease (some l, leases) h = cc

-- An agent with an identity of its own that acquires the lease of a task that no one holds, without
-- secrets in its words, gets it: at any time before its end, the lease is the one found, and the
-- leases of the other tasks are as before.
pub acquire-find :
    (calls : LeaseCalls)
    → LeaseLaws calls
    → (now : ℕ) (uuid task agent scope : String) (ttl_minutes : ℕ) (leases : Leases calls)
    → is_set (strip agent) ≡ true
    → (agent == default_agent) ≡ false
    → calls.has_secret task ≡ false
    → calls.has_secret agent ≡ false
    → (find calls now (signature_of calls task) leases).0 ≡ none
    → (t : ℕ) → t < end_of now ttl_minutes
    → (other : String) → (signature_of calls task == other) ≡ false
    → (lease : TaskLease) × (after : Leases calls) × (acquire calls now uuid task agent scope
          ttl_minutes leases
        ≡ ok (lease, after))
      × (lease.agent ≡ agent)
      × (find calls t (signature_of calls task) after ≡ (some lease, after))
      × (lookup other after ≡ lookup other leases)
unfolding acquire new_lease
acquire-find calls laws now uuid task agent scope ttl_minutes leases named own clean_task
      clean_agent absent t h other apart =
    let lease = new_lease calls now uuid task agent scope ttl_minutes in
    let kept = (find calls now (signature_of calls task) leases).1 in
    let after = insert (signature_of calls task) (calls.encode lease) kept in
    (
      lease,
      after,
      rw (named, own, clean_task, clean_agent)
          (free_found calls lease (find calls now (signature_of calls task) leases) absent),
      refl,
      held calls laws t now ttl_minutes uuid task agent scope kept h,
      lookup-insert (signature_of calls task) other (calls.encode lease) kept
          ∙ rw apart (find_others calls laws now task other leases apart),
    )

found_inverse :
    (calls : LeaseCalls) (a b : Bool) (x y : Exception) (lease : TaskLease)
    (found : Option TaskLease × Leases calls) (p : TaskLease × Leases calls)
    → raise_if a x (raise_if b y (acquire_found calls found lease)) ≡ ok p
    → (lease, insert lease.task_signature (calls.encode lease) found.1) ≡ p
unfolding acquire_found
found_inverse calls true b x y lease found p h = cc
found_inverse calls false true x y lease found p h = cc
found_inverse calls false false x y lease (some l, leases) p h = cc
found_inverse calls false false x y lease (none, leases) p h = ok_inj h

-- What a lease that was acquired is, until its end.
acquired :
    (calls : LeaseCalls)
    → LeaseLaws calls
    → (now : ℕ) (uuid task agent scope : String) (ttl_minutes : ℕ) (leases : Leases calls)
    → (lease : TaskLease) (after : Leases calls)
    → acquire calls now uuid task agent scope ttl_minutes leases ≡ ok (lease, after)
    → (t : ℕ) → t < end_of now ttl_minutes
    → (find calls t (signature_of calls task) after ≡ (some lease, after))
      × (lease.agent ≡ agent)
      × (lease.task_signature ≡ signature_of calls task)
unfolding acquire new_lease
acquired calls laws now uuid task agent scope ttl_minutes leases lease after done t h =
    let found = find calls now (signature_of calls task) leases in
    let m = new_lease calls now uuid task agent scope ttl_minutes in
    let pair =
      found_inverse calls (not (is_set (strip agent)) || agent == default_agent)
        (calls.has_secret task || calls.has_secret agent) _ _ m found (lease, after) done in
    subst
      (λ (p : TaskLease × Leases calls).
        (find calls t (signature_of calls task) p.1 ≡ (some p.0, p.1))
        × (p.0.agent ≡ agent)
        × (p.0.task_signature ≡ signature_of calls task))
      pair (held calls laws t now ttl_minutes uuid task agent scope found.1 h, refl, refl)

taken :
    (calls : LeaseCalls) (m lease : TaskLease) (leases : Leases calls)
    → acquire_found calls (some lease, leases) m
      ≡ raise (
          value_error (
            append "task lease already held by "
              (append lease.agent (append " until " lease.expires))))
unfolding acquire_found
taken calls m lease leases = refl

find_absent :
    (calls : LeaseCalls)
    → LeaseLaws calls
    → (now : ℕ) (task : String) (leases : Leases calls)
    → lookup (signature_of calls task) leases ≡ none
    → find calls now (signature_of calls task) leases ≡ (none, leases)
unfolding find_content
find_absent calls laws now task leases e =
    find_signed calls laws now task leases
    ∙ ap (λ o. find_content calls now (signature_of calls task) o leases) e

-- While a lease that was acquired has not ended, acquiring the lease of any task with the same
-- signature raises a ValueError, whoever asks.
pub acquire_excludes :
    (calls : LeaseCalls)
    → LeaseLaws calls
    → (now : ℕ) (uuid task agent scope : String) (ttl_minutes : ℕ) (leases : Leases calls)
    → (lease : TaskLease) (after : Leases calls)
    → acquire calls now uuid task agent scope ttl_minutes leases ≡ ok (lease, after)
    → (t : ℕ) → t < end_of now ttl_minutes
    → (fresh other rival area : String) (minutes : ℕ)
    → signature_of calls other ≡ signature_of calls task
    → (message : String) × (acquire calls t fresh other rival area minutes after
        ≡ raise (value_error message))
unfolding acquire
acquire_excludes calls laws now uuid task agent scope ttl_minutes leases lease after done t h fresh
      other rival area minutes same =
    let (found, owner, signed) =
      acquired calls laws now uuid task agent scope ttl_minutes leases lease after done t h in
    let m = new_lease calls t fresh other rival area minutes in
    let there_is : find calls t (signature_of calls other) after ≡ (some lease, after) =
      ap (λ s. find calls t s after) same ∙ found in
    elim (Bool-cases (not (is_set (strip rival)) || rival == default_agent)) [
      | inl e ↦ ("leases need a distinct agent identity; pass --agent or set KB_AGENT", rw e refl)
      | inr e ↦ elim (Bool-cases (calls.has_secret other || calls.has_secret rival)) [
        | inl f ↦ ("refusing to persist secret-bearing content", rw (e, f) refl)
        | inr f ↦ (
          append "task lease already held by "
              (append lease.agent (append " until " lease.expires)),
          rw (e, f) (ap (λ p. acquire_found calls p m) there_is ∙ taken calls m lease after),
        )
      ]
    ]

refuse_release :
    (calls : LeaseCalls) (caller : String) (lease : TaskLease) (leases : Leases calls)
    → (is_set caller && not (lease.agent == caller)) ≡ true
    → release_found calls caller (some lease, leases)
      ≡ raise (value_error (append "lease belongs to " lease.agent))
unfolding release_found
refuse_release calls caller lease leases e = rw e refl

grant_release :
    (calls : LeaseCalls) (caller : String) (lease : TaskLease) (leases : Leases calls)
    → (is_set caller && not (lease.agent == caller)) ≡ false
    → release_found calls caller (some lease, leases)
      ≡ ok (true, remove lease.task_signature leases)
unfolding release_found
grant_release calls caller lease leases e = rw e refl

stranger :
    (holder caller agent : String) → holder ≡ agent → not (holder == caller) ≡ true → caller ≢ agent
stranger holder caller agent o e p = ground (arith, (eq_iff holder caller).1 (o ∙ sym p))

entitled :
    (holder caller agent : String)
    → holder ≡ agent
    → (is_set caller && not (holder == caller)) ≡ false
    → (is_set caller ≡ false) ⊎ (caller ≡ agent)
entitled holder caller agent o e = elim (Bool-cases (holder == caller)) [
  | inl t ↦ inr (sym (eq_of_test holder caller t) ∙ o)
  | inr f ↦ inl (ground arith)
]

-- A lease that was acquired and has not ended: its agent, or a caller that names no agent, releases it,
-- after which it is found at no time and the other leases are as before; a caller that names another
-- agent gets a ValueError.
pub release_owner :
    (calls : LeaseCalls)
    → LeaseLaws calls
    → (now : ℕ) (uuid task agent scope : String) (ttl_minutes : ℕ) (leases : Leases calls)
    → (lease : TaskLease) (after : Leases calls)
    → acquire calls now uuid task agent scope ttl_minutes leases ≡ ok (lease, after)
    → (t : ℕ) → t < end_of now ttl_minutes
    → (caller : String) (u : ℕ) (other : String) → (signature_of calls task == other) ≡ false
    → ((is_set caller ≡ true)
        × (caller ≢ agent)
        × ((message : String) × (release calls t (signature_of calls task) caller after
              ≡ raise (value_error message))))
      ⊎ (((is_set caller ≡ false) ⊎ (caller ≡ agent))
          × ((free : Leases calls) × (release calls t (signature_of calls task) caller after
                ≡ ok (true, free))
              × (find calls u (signature_of calls task) free ≡ (none, free))
              × (lookup other free ≡ lookup other after)))
unfolding release
release_owner calls laws now uuid task agent scope ttl_minutes leases lease after done t h caller u
      other apart =
    let (found, owner, signed) =
      acquired calls laws now uuid task agent scope ttl_minutes leases lease after done t h in
    let free = remove lease.task_signature after in
    let kept : lookup other free ≡ lookup other after =
      lookup-remove lease.task_signature other after ∙ rw (signed, apart) refl in
    let gone : find calls u (signature_of calls task) free ≡ (none, free) =
      find_absent calls laws u task free (
        lookup-remove lease.task_signature (signature_of calls task) after
        ∙ rw (signed, eq_refl (signature_of calls task)) refl) in
    elim (Bool-cases (is_set caller && not (lease.agent == caller))) [
      | inl e ↦
          let (set, other_owner) = &&_iff (is_set caller) (not (lease.agent == caller)) e in
          inl (
            set,
            stranger lease.agent caller agent owner other_owner,
            (
              append "lease belongs to " lease.agent,
              ap (release_found calls caller) found ∙ refuse_release calls caller lease after e,
            ),
          )
      | inr e ↦ inr (
        entitled lease.agent caller agent owner e,
        (
          free,
          ap (release_found calls caller) found ∙ grant_release calls caller lease after e,
          gone,
          kept,
        ),
      )
    ]
