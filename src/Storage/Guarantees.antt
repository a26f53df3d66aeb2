-- ===== src/Storage/Guarantees.antt =====
-- What `semantic_transaction` promises when the body raises.
use autonomic_obsidian_kb.Prelude.{
  ℕ, String, ◌≡◌, refl, sym, ap, ◌∙◌, Bool, true, none, some, List, arith, if◌then◌else◌, is_some,
  nat_eq, string_eq, list_eq, all, lookup, Exception, Result, ok, raise,
}
use autonomic_obsidian_kb.Storage.Disk.{FilePath, Disk, find, read}
use autonomic_obsidian_kb.Storage.Walk.{is_semantic}
use autonomic_obsidian_kb.Storage.Journal.{Recorded, Vault}
use autonomic_obsidian_kb.Storage.Transaction.{rolled_back_path, snapshot}
use autonomic_obsidian_kb.Storage.Session.{
  prune_local_copies, recover_transactions, semantic_transaction,
}
use autonomic_obsidian_kb.Storage.Actions.{Action, run_actions, is_own, is_allowed, all_own-allowed}
use autonomic_obsidian_kb.Storage.Snapshot.{IsSound}
use autonomic_obsidian_kb.Storage.Snapped.{IsFresh}
use autonomic_obsidian_kb.Storage.Rollback.{
  text_of_inode, failing, taken, taken_runs, text_of, own_texts, linked_texts, out-after,
  notes-after, new-after, journal-after,
}

-- Where the file system has hard links, after a transaction whose body changed files through the KB's
-- own writes, deletes and moves and then raised: the exception comes out, a note or ledger record reads
-- what it read before, and no journal of the transaction is left. The vault's names are sound, no
-- transaction is pending, and the identity is fresh.
pub rollback-restores :
    (A : Type 0) (expired : String → Bool) (identity : String) (v : Vault) (script : List Action)
    (e : Exception)
    → recover_transactions v ≡ (ok tt, v)
    → IsSound v.disk
    → IsFresh identity v.disk
    → all is_own script ≡ true
    → v.disk.hard_links ≡ true
    → (q : FilePath) → is_semantic q ≡ true
    → ((semantic_transaction {A = A} expired identity (failing script e) v).0 ≡ raise e)
      × (read (semantic_transaction {A = A} expired identity (failing script e) v).1.disk q
          ≡ read v.disk q)
      × (lookup identity
            (semantic_transaction {A = A} expired identity (failing script e) v).1.journals
          ≡ none)
rollback-restores A expired identity v script e recovered sound fresh own links q h =
    let allowed = all_own-allowed script own in
    let wanted =
      text_of A expired identity v script e recovered sound fresh allowed v.disk.content in
    let texts = own_texts A expired identity v script e recovered sound fresh allowed own in
    (
      ap (λ (r : Result A × Vault). r.0)
          (out-after A expired identity v script e recovered sound fresh allowed wanted texts),
      notes-after A expired identity v script e recovered sound fresh allowed wanted texts q h
          ∙ before q,
      journal-after A expired identity v script e recovered sound fresh allowed wanted texts,
    )
  where
    before :
        (q : FilePath)
        → (if is_some (find v.disk q)
            then some (text_of_inode v.disk.content (find v.disk q))
            else none)
          ≡ read v.disk q
    before q = unfold read find in ground arith

abbrev after_snapshot : Disk → Result (Recorded × Disk) → Disk
after_snapshot d (ok (files, d')) = d'
after_snapshot d (raise e) = d

-- Where the file system has hard links, an editor that saves notes in place during a transaction that
-- raises loses nothing: each note or ledger record that was there has its inode's last text, whether
-- the KB replaced or removed its name or not. The vault's names are sound, no transaction is pending,
-- and the identity is fresh.
pub rollback_keeps_edits :
    (A : Type 0) (expired : String → Bool) (identity : String) (v : Vault) (script : List Action)
    (e : Exception) (files : Recorded) (d : Disk)
    → recover_transactions v ≡ (ok tt, v)
    → IsSound v.disk
    → IsFresh identity v.disk
    → all is_allowed script ≡ true
    → v.disk.hard_links ≡ true
    → snapshot identity (prune_local_copies expired v.disk) ≡ ok (files, d)
    → (q : FilePath) (i : ℕ) → is_semantic q ≡ true
    → find v.disk q ≡ some i
    → read (semantic_transaction {A = A} expired identity (failing script e) v).1.disk q
      ≡ some ((run_actions script d).content i)
rollback_keeps_edits A expired identity v script e files d recovered sound fresh allowed links
      snapped q i h there_now =
    let s = taken A expired identity v script e recovered sound fresh allowed in
    let same : s.disk ≡ d =
      ap (after_snapshot v.disk)
        (sym (taken_runs A expired identity v script e recovered sound fresh allowed) ∙ snapped) in
    let wanted =
      text_of A expired identity v script e recovered sound fresh allowed
        (run_actions script s.disk).content in
    let texts = linked_texts A expired identity v script e recovered sound fresh allowed links in
    notes-after A expired identity v script e recovered sound fresh allowed wanted texts q h
    ∙ ap
        (λ o.
          if is_some o then some (text_of_inode (run_actions script s.disk).content o) else none)
        there_now
    ∙ (ap (λ (z : Disk). some ((run_actions script z).content i)) same)

-- Under the same conditions, a note or ledger record that the body created, at a name that was free,
-- is there no more after the roll back, and its text stands among the rolled-back files.
pub rollback_sets_aside :
    (A : Type 0) (expired : String → Bool) (identity : String) (v : Vault) (script : List Action)
    (e : Exception) (files : Recorded) (d : Disk)
    → recover_transactions v ≡ (ok tt, v)
    → IsSound v.disk
    → IsFresh identity v.disk
    → all is_allowed script ≡ true
    → v.disk.hard_links ≡ true
    → snapshot identity (prune_local_copies expired v.disk) ≡ ok (files, d)
    → (q : FilePath) → is_semantic q ≡ true
    → find v.disk q ≡ none
    → is_some (find (run_actions script d) q) ≡ true
    → (read (semantic_transaction {A = A} expired identity (failing script e) v).1.disk q ≡ none)
      × (read
            (semantic_transaction {A = A} expired identity (failing script e) v).1.disk
            (rolled_back_path identity q)
          ≡ read (run_actions script d) q)
rollback_sets_aside A expired identity v script e files d recovered sound fresh allowed links
      snapped q h absent present =
    let s = taken A expired identity v script e recovered sound fresh allowed in
    let same : s.disk ≡ d =
      ap (after_snapshot v.disk)
        (sym (taken_runs A expired identity v script e recovered sound fresh allowed) ∙ snapped) in
    let wanted =
      text_of A expired identity v script e recovered sound fresh allowed
        (run_actions script s.disk).content in
    let texts = linked_texts A expired identity v script e recovered sound fresh allowed links in
    (
      notes-after A expired identity v script e recovered sound fresh allowed wanted texts q h
          ∙ rw absent refl,
      new-after A expired identity v script e recovered sound fresh allowed wanted texts q h absent
            (ap (λ (z : Disk). is_some (find (run_actions script z) q)) same ∙ present)
          ∙ ap (λ (z : Disk). read (run_actions script z) q) same,
    )
