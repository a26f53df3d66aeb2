-- ===== src/Storage/Commit.antt =====
-- What `semantic_transaction` promises when the body returns, and when an interrupted transaction
-- stands in the way.
use autonomic_obsidian_kb.Prelude.{
  String, ◌≡◌, refl, ap, ◌∙◌, ◌⊎◌, inl, inr, Bool, true, false, not, ◌&&◌, ◌||◌, none, List, [],
  ◌∷◌, ◌++◌, arith, if◌then◌else◌, Bool-cases, ◌==◌, eq_refl, nat_eq, string_eq, list_eq, any,
  lookup, lookup-remove, value_error, Result, ok, raise, join, append,
}
use autonomic_obsidian_kb.Storage.Disk.{FilePath, Disk, read}
use autonomic_obsidian_kb.Storage.Walk.{is_semantic, journal_directory}
use autonomic_obsidian_kb.Storage.Journal.{Recorded, Row, Vault}
use autonomic_obsidian_kb.Storage.Transaction.{snapshot}
use autonomic_obsidian_kb.Storage.Facts.{read_of_find-eq}
use autonomic_obsidian_kb.Storage.Outside.{find-remove_tree}
use autonomic_obsidian_kb.Storage.Rollback.{entered, recovered-begin, begin-run_body}
use autonomic_obsidian_kb.Storage.Session.{
  remove_tree, discard, readable_rows, interrupted_early, recover_rows, recover_transactions,
  prune_local_copies, answer_blocking, recover_journals, roll_back, run_body, recovered_then,
  semantic_transaction,
}

-- Whether a journal stops every later transaction.
abbrev pub blocks : String × Row → Bool
blocks (identity, row) = row.state == "prepared" && not (interrupted_early row)

grown : (xs : List String) (y : String) → any (λ x. true) (xs ++ y ∷ []) ≡ true
grown [] y = refl
grown (x ∷ xs) y = refl

recover_rows-blocking :
    (rows : List (String × Row)) (blocking : List String) (v : Vault)
    → (any (λ x. true) blocking || any blocks rows) ≡ true
    → any (λ x. true) (recover_rows rows blocking v).0 ≡ true
unfolding recover_rows
recover_rows-blocking [] blocking v h = ground arith
recover_rows-blocking ((identity, row) ∷ rows) blocking v h =
    recover_rows-blocking rows
      (if row.state == "prepared" && not (interrupted_early row)
        then blocking ++ append identity ".json" ∷ []
        else blocking)
      (if row.state == "prepared" && interrupted_early row then discard identity v else v)
      (elim (Bool-cases (row.state == "prepared" && not (interrupted_early row))) [
        | inl e ↦ rw e (ground (arith, grown blocking (append identity ".json")))
        | inr e ↦ rw e (ground arith)
      ])

-- Discarding a journal leaves the notes alone.
read-discard :
    (identity : String) (v : Vault) (q : FilePath)
    → is_semantic q ≡ true
    → read (discard identity v).disk q ≡ read v.disk q
unfolding discard remove_tree
read-discard identity v q h =
    read_of_find-eq v.disk (remove_tree (journal_directory ∷ identity ∷ []) v.disk) q
      (find-remove_tree v.disk identity q h) (λ i e. refl)

read-recover_rows :
    (rows : List (String × Row)) (blocking : List String) (v : Vault) (q : FilePath)
    → is_semantic q ≡ true
    → read (recover_rows rows blocking v).1.disk q ≡ read v.disk q
unfolding recover_rows
read-recover_rows [] blocking v q h = refl
read-recover_rows ((identity, row) ∷ rows) blocking v q h =
    read-recover_rows rows
      (if row.state == "prepared" && not (interrupted_early row)
        then blocking ++ append identity ".json" ∷ []
        else blocking)
      (if row.state == "prepared" && interrupted_early row then discard identity v else v) q h
    ∙ step (Bool-cases (row.state == "prepared" && interrupted_early row))
  where
    step :
        ((row.state == "prepared" && interrupted_early row) ≡ true)
          ⊎ ((row.state == "prepared" && interrupted_early row) ≡ false)
        → read
            (if row.state == "prepared" && interrupted_early row
              then discard identity v
              else v).disk
            q
          ≡ read v.disk q
    step (inl e) = rw e (read-discard identity v q h)
    step (inr e) = rw e refl

recover-rows :
    (v : Vault)
    → v.active ≡ false
    → recover_transactions v ≡ recover_journals v (readable_rows v.journals)
unfolding recover_transactions
recover-rows v h = by_active v.active h
  where
    by_active :
        (b : Bool)
        → b ≡ false
        → (if b then (ok tt, v) else recover_journals v (readable_rows v.journals))
          ≡ recover_journals v (readable_rows v.journals)
    by_active true e = cc
    by_active false e = refl

answer_blocking-refuses :
    (p : List String × Vault)
    → any (λ x. true) p.0 ≡ true
    → (message : String) × (answer_blocking p ≡ (raise (value_error message), p.1))
unfolding answer_blocking
answer_blocking-refuses ([], w) h = cc
answer_blocking-refuses (name ∷ names, w) h = (
  append "interrupted semantic transaction requires reconciliation: "
      (append (join ", " (name ∷ names)) "; run `kb reconcile`"),
  refl,
)

run_body-commits :
    (A : Type 0) (identity : String) (files : Recorded) (body : Vault → Result A × Vault)
    (v w : Vault) (a : A)
    → body v ≡ (ok a, w)
    → run_body identity files body v ≡ (ok a, discard identity w)
unfolding run_body
run_body-commits A identity files body v w a h =
    ap
      (λ (r : Result A × Vault).
        let (result, v') = r in
        elim result as (λ z. Result A × Vault) [
          | ok a ↦ (ok a, discard identity v')
          | raise e ↦ roll_back identity files e v'
        ])
      h

-- A transaction whose body returns: with no transaction pending and the snapshot taken, its value comes
-- out, a note or ledger record reads what the body left, and the journal of the transaction is gone.
pub transaction-commits :
    (A : Type 0) (expired : String → Bool) (identity : String) (v w : Vault)
    (body : Vault → Result A × Vault) (a : A) (files : Recorded) (d : Disk)
    → recover_transactions v ≡ (ok tt, v)
    → snapshot identity (prune_local_copies expired v.disk) ≡ ok (files, d)
    → body (entered A expired identity body v files d) ≡ (ok a, w)
    → (q : FilePath) → is_semantic q ≡ true
    → ((semantic_transaction expired identity body v).0 ≡ ok a)
      × (read (semantic_transaction expired identity body v).1.disk q ≡ read w.disk q)
      × (lookup identity (semantic_transaction expired identity body v).1.journals ≡ none)
unfolding discard
transaction-commits A expired identity v w body a files d recovered snapped returned q h =
    let out =
      recovered-begin A expired identity body v recovered
      ∙ begin-run_body A expired identity body v snapped
      ∙ ap (λ (r : Result A × Vault). (r.0, record r.1 { active = v.active }))
          (run_body-commits A identity files body (entered A expired identity body v files d) w a
            returned) in
    (
      ap (λ (r : Result A × Vault). r.0) out,
      ap (λ (r : Result A × Vault). read r.1.disk q) out ∙ read-discard identity w q h,
      ap (λ (r : Result A × Vault). lookup identity r.1.journals) out
          ∙ lookup-remove identity identity w.journals
          ∙ rw (eq_refl identity) refl,
    )

-- While a journal that was interrupted after it had its snapshot is there, and all journals can be
-- read, a transaction raises a ValueError whatever its body is, and changes no note and no ledger
-- record.
pub transaction_blocked :
    (A : Type 0) (expired : String → Bool) (identity : String) (v : Vault)
    (body : Vault → Result A × Vault) (rows : List (String × Row))
    → v.active ≡ false
    → readable_rows v.journals ≡ ok rows
    → any blocks rows ≡ true
    → (q : FilePath) → is_semantic q ≡ true
    → (message : String) × ((semantic_transaction expired identity body v).0
        ≡ raise (value_error message))
      × (read (semantic_transaction expired identity body v).1.disk q ≡ read v.disk q)
unfolding semantic_transaction recover_journals
transaction_blocked A expired identity v body rows outside readable blocked q h =
    let (message, refused) =
      answer_blocking-refuses (recover_rows rows [] v) (recover_rows-blocking rows [] v blocked) in
    let out = recover-rows v outside ∙ ap (recover_journals v) readable ∙ refused in
    let all = ap (recovered_then expired identity body) out in
    (
      message,
      ap (λ (r : Result A × Vault). r.0) all,
      ap (λ (r : Result A × Vault). read r.1.disk q) all ∙ read-recover_rows rows [] v q h,
    )
