-- ===== src/Lease/Store.antt =====
-- `TaskLease` and `LeaseStore` of leases.py. The directory of leases is a dict from signatures to
-- texts; a time is a count of microseconds.
use autonomic_obsidian_kb.Prelude.{
  ℕ, ◌+◌, ◌*◌, max, String, Bool, true, false, not, ◌&&◌, ◌||◌, Option, none, some, List, [], leb,
  if◌then◌else◌, ◌==◌, nat_eq, string_eq, list_eq, lookup, insert, remove, value_error, Result, ok,
  raise, raise_if, is_set, strip, append,
}
use autonomic_obsidian_kb.Evidence.Records.{first_chars}

pub record TaskLease : Type 0 where
  pub lease_id : String
  pub task_signature : String
  pub agent : String
  pub scope : String
  pub started : String
  pub expires : String
  pub artifacts : List String

-- What leases.py calls of hashlib, json, re, str and datetime, and of security.py.
pub record LeaseCalls : Type 1 where
  -- the texts of files
  pub Content : Type 0
  pub sha256 : String → String
  pub lower : String → String
  -- re.fullmatch of twenty hexadecimal digits
  pub is_signature : String → Bool
  pub encode : TaskLease → Content
  -- none where the text is no JSON of a lease
  pub decode : Content → Option TaskLease
  -- the time to the second, in UTC
  pub isoformat : ℕ → String
  pub parse_time : String → Option ℕ
  pub has_secret : String → Bool

abbrev pub default_agent : String
default_agent = "generic"

abbrev pub Leases : LeaseCalls → Type 0
Leases calls = List (String × calls.Content)

module _ (calls : LeaseCalls) where
  open calls use {
    Content, sha256, lower, is_signature, encode, decode, isoformat, parse_time, has_secret,
  }

  unfoldable pub signature_of : String → String
  unfolding first_chars strip
  signature_of task = first_chars 20 (sha256 (lower (strip task)))

  -- not expiry or expiry <= now
  unfoldable pub expired : Option ℕ → ℕ → Bool
  expired none now = true
  expired (some expiry) now = leb expiry now

  unfoldable pub find_decoded :
      ℕ → String → Option TaskLease → Leases calls → Option TaskLease × Leases calls
  unfolding expired remove
  find_decoded now signature none leases = (none, leases)
  find_decoded now signature (some lease) leases =
      if expired (parse_time lease.expires) now
      then (none, remove signature leases)
      else (some lease, leases)

  unfoldable pub find_content :
      ℕ → String → Option Content → Leases calls → Option TaskLease × Leases calls
  unfolding find_decoded
  find_content now signature none leases = (none, leases)
  find_content now signature (some content) leases =
      find_decoded now signature (decode content) leases

  -- `find` at a time
  unfoldable pub find : ℕ → String → Leases calls → Option TaskLease × Leases calls
  unfolding find_content signature_of lookup
  find now task_or_signature leases =
      let signature =
        if is_signature task_or_signature
        then task_or_signature
        else signature_of task_or_signature in
      find_content now signature (lookup signature leases) leases

  abbrev pub microseconds : ℕ
  microseconds = 1000000

  -- The lease of `_acquire`, at a time and with a fresh uuid.
  unfoldable pub new_lease : ℕ → String → String → String → String → ℕ → TaskLease
  unfolding signature_of
  new_lease now uuid task agent scope ttl_minutes = record {
    lease_id = append "lease:" uuid;
    task_signature = signature_of task;
    agent = agent;
    scope = scope;
    started = isoformat now;
    expires = isoformat (now + 60 * microseconds * max 1 ttl_minutes);
    artifacts = [];
  }

  unfoldable pub acquire_found :
      Option TaskLease × Leases calls → TaskLease → Result (TaskLease × Leases calls)
  unfolding insert
  acquire_found (some existing, leases) lease = raise (
      value_error (
        append "task lease already held by "
          (append existing.agent (append " until " existing.expires))))
  acquire_found (none, leases) lease = ok (lease, insert lease.task_signature (encode lease) leases)

  -- `acquire` at a time and with a fresh uuid
  unfoldable pub acquire :
      ℕ → String → String → String → String → ℕ → Leases calls → Result (TaskLease × Leases calls)
  unfolding acquire_found find new_lease strip
  acquire now uuid task agent scope ttl_minutes leases =
      raise_if (not (is_set (strip agent)) || agent == default_agent)
        (value_error "leases need a distinct agent identity; pass --agent or set KB_AGENT")
        (raise_if (has_secret task || has_secret agent)
          (value_error "refusing to persist secret-bearing content")
          (acquire_found (find now (signature_of task) leases)
            (new_lease now uuid task agent scope ttl_minutes)))

  unfoldable pub release_found :
      String → Option TaskLease × Leases calls → Result (Bool × Leases calls)
  unfolding remove
  release_found agent (none, leases) = ok (false, leases)
  release_found agent (some lease, leases) =
      raise_if (is_set agent && not (lease.agent == agent))
        (value_error (append "lease belongs to " lease.agent))
        (ok (true, remove lease.task_signature leases))

  -- `release` at a time
  unfoldable pub release : ℕ → String → String → Leases calls → Result (Bool × Leases calls)
  unfolding release_found find
  release now task_or_signature agent leases =
      release_found agent (find now task_or_signature leases)
