-- ===== src/Tests/Lease.antt =====
-- Leases of a store whose files hold the leases themselves and whose times are written in unary.
use autonomic_obsidian_kb.Prelude.{
  ℕ, zero, suc, ◌*◌, ◌/◌, String, ◌≡◌, refl, ap, ◌≢◌, ◌⊎◌, true, false, none, some, [], ◌∷◌, arith,
  nat_eq, string_eq, list_eq, lookup, insert, value_error, ok, raise, is_set, strip, starts_with,
  contains,
}
use autonomic_obsidian_kb.Evidence.Records.{first_chars}
use autonomic_obsidian_kb.Lease.Store.{
  TaskLease, LeaseCalls, Leases, signature_of, find_decoded, find_content, find, new_lease,
  acquire_found, acquire, release,
}
use autonomic_obsidian_kb.Lease.Exclusion.{LeaseLaws, acquire-find, acquire_excludes, release_owner}

abbrev unary : ℕ → String
unary zero = ""
unary (suc n) = String.◌∷◌ "x" (unary n)

abbrev count : String → ℕ
count String.[] = 0
count (String.◌∷◌ c s) = suc (count s)

count-unary : (n : ℕ) → count (unary n) ≡ n
count-unary zero = refl
count-unary (suc n) = ap suc (count-unary n)

abbrev calls : LeaseCalls
calls = record {
  Content = TaskLease;
  sha256 = λ s. s;
  lower = λ s. s;
  is_signature = λ s. true;
  encode = λ l. l;
  decode = λ l. some l;
  isoformat = λ t. unary (t / 1000000);
  parse_time = λ s. some (count s * 1000000);
  has_secret = λ s. contains s "password";
}

laws : LeaseLaws calls
laws = record {
  signs = λ s. refl;
  decode-encode = λ l. refl;
  parse-isoformat = λ t. ap (λ n. some (n * 1000000)) (count-unary (t / 1000000));
}

abbrev lease : TaskLease
lease = record {
  lease_id = "lease:1";
  task_signature = "fix it";
  agent = "codex";
  scope = "repository";
  started = unary 1;
  expires = unary 61;
  artifacts = [];
}

abbrev none_held : Leases calls
none_held = []

abbrev one_held : Leases calls
one_held = ("fix it", lease) ∷ []

acquire-find_example :
    (lease : TaskLease) × (after : Leases calls) × (acquire calls 1000000 "1" "fix it" "codex"
        "repository" 1 none_held
      ≡ ok (lease, after))
    × (lease.agent ≡ "codex")
    × (find calls 60000000 (signature_of calls "fix it") after ≡ (some lease, after))
    × (lookup "other" after ≡ lookup "other" none_held)
unfolding find find_content lookup signature_of contains starts_with strip
acquire-find_example =
    acquire-find calls laws 1000000 "1" "fix it" "codex" "repository" 1 none_held refl refl refl
      refl refl 60000000 (omega arith) "other" refl

acquired :
    acquire calls 1000000 "1" "fix it" "codex" "repository" 1 none_held ≡ ok (lease, one_held)
unfolding acquire find find_content find_decoded acquire_found new_lease signature_of first_chars
    strip contains starts_with lookup insert
acquired = refl

acquire_excludes_example :
    (message : String) × (acquire calls 2000000 "2" " fix it" "claude" "repository" 30 one_held
      ≡ raise (value_error message))
unfolding signature_of first_chars strip
acquire_excludes_example =
    acquire_excludes calls laws 1000000 "1" "fix it" "codex" "repository" 1 none_held lease one_held
      acquired 2000000 (omega arith) "2" " fix it" "claude" "repository" 30 refl

abbrev rival : String
rival = "claude"

release_owner_example :
    ((is_set rival ≡ true)
      × (rival ≢ "codex")
      × ((message : String) × (release calls 2000000 (signature_of calls "fix it") rival one_held
            ≡ raise (value_error message))))
    ⊎ (((is_set rival ≡ false) ⊎ (rival ≡ "codex"))
        × ((free : Leases calls) × (release calls 2000000
                (signature_of calls "fix it")
                rival
                one_held
              ≡ ok (true, free))
            × (find calls 3000000 (signature_of calls "fix it") free ≡ (none, free))
            × (lookup "other" free ≡ lookup "other" one_held)))
unfolding signature_of first_chars strip
release_owner_example =
    release_owner calls laws 1000000 "1" "fix it" "codex" "repository" 1 none_held lease one_held
      acquired 2000000 (omega arith) rival 3000000 "other" refl
