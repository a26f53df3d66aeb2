-- ===== src/Lib.antt =====
-- autonomic-obsidian-kb keeps an agent's memories as Markdown notes of an Obsidian vault, with an
-- operation ledger, evidence, leases and an index beside them. This library models the parts that
-- decide what a vault keeps and what an agent may see, from the Python package
-- src/autonomic_kb.
--
-- The parts, and how they interact. Whatever changes notes runs inside a transaction of storage.py,
-- which saves the protected files first and puts them back when the body raises. Each change is an
-- operation of the ledger of evidence.py, which refers to evidence by its digest. A candidate for a
-- memory is checked by learning.py, which compares it with the rows of the index, decides its status,
-- writes its note and logs the operation. A retrieval takes rows of the index, lets the search find
-- those that the read gate accepts and that contradict no other, and delivers views of what is
-- selected, cut down until what is emitted fits the budget. Leases keep two agents from one task.
--
--   Prelude: tests, texts, lists, dicts, results and the sort that the models share.
--   Storage.Disk is the file system under a vault, Storage.Walk, Storage.Journal,
--     Storage.Transaction and Storage.Session are storage.py: the walks, the journals,
--     `_snapshot`, `_restore` and `semantic_transaction`. Storage.Actions has the writes, deletes,
--     moves and editor saves that a body is made of; the other files lead to
--     Storage.Guarantees, on bodies that raise, and Storage.Commit, on bodies that return and on
--     interrupted transactions.
--   Models: JSON values, the interface of floats, a row of the index, `TaskContext` and, in
--     Models.Manifest, the items and the manifest of a retrieval with what they are rendered to.
--   Gate.Trust is `trust_gate` of security.py, Gate.Scope `scope_gate` of scoring.py,
--     Gate.Applicability applicability.py, and Gate.Read `memory_read_gate` of read_policy.py, which
--     calls the others. Gate.Taints, Gate.Isolation, Gate.Applicable and Gate.Readable are about them,
--     Gate.Times, Gate.Sources, Gate.Named and Gate.Matching about the times and the source
--     dependencies. Gate.Conflicts is `conflicting_claim_ids`, and Gate.Disputed leads to what it blocks.
--   Evidence.Store and Evidence.Ledger are the two classes of evidence.py.
--   Lease.Store is leases.py, and Context is context_state.py, with `to_dict` and what `get` reads.
--   Retrieval.View is `compile_task_view` of compiler.py, Retrieval.Plan query_plan.py and
--     `choose_route`, Retrieval.Sufficiency sufficiency.py, Retrieval.Eligible the choice of the
--     notes in `retrieve` of retrieval.py, Retrieval.Offer and Retrieval.Allocate `_allocate_set`,
--     and Retrieval.Payload the end of `retrieve`, where the items are cut down. Fitting, Shown,
--     Coverage, Admitted, Ended, Allocated, Cuts, Known, Delivered and Outcome are about them.
--   Learning.Candidate, Import, Duplicate and Status are `LearningCandidate`, `from_dict`,
--     `_near_duplicate` and the decision on a status of learning.py; Learning.Sources, Metadata and
--     Remember are the parts of `_remember_locked`. Learning.Validity, Imported, Checked and
--     Vouching are about them.
--   Lifecycle.Review is `promote` of lifecycle.py with what it calls, Lifecycle.Replace `_replace`,
--     which supersedes, merges and splits; Lifecycle.Cleared, Reviewed and Promoted are
--     about them.
--     Storage.Move is `move_into` of storage.py, on texts by paths.
--   Migration.Metadata is `migrate_metadata` of migrations.py, and Migration.Idempotent about it.
--   Tests: sample values, runs, and each theorem at an input that meets its conditions.
--
-- How the state is modelled. A disk maps names to inodes and inodes to texts, so that hard links and
-- in-place saves show; directories are implied by their files. The number of an inode is not given
-- again to another file, as on a real file system while a link to it is left, which a snapshot by
-- links keeps. The stores of evidence, operations and leases are dicts from paths or signatures to
-- file texts. A time is a number of microseconds. The clock, a fresh uuid, digests, JSON, regular
-- expressions, git, packaging and the token count are arguments. Floats are an interface of which
-- nothing is assumed. The lock of the vault makes an operation one step. Two loops need fuel:
-- `cut_down` gets as much as there are layers, items and labels to cut, and `allocate` as much as
-- there are rows, since each pass cuts or takes one. Every other loop runs over a list or a number
-- that is there at its start. Where an error message quotes values by `repr`, the model's message is
-- shorter.
--
-- Not modelled: symbolic links and failing devices; a roll back from copies on a file system that
-- gives inode numbers again; a journal whose JSON is no object, on which
-- `_discard_finished_journals` raises; the retrieval's search and ranking; of a submission, the
-- record of a review, the events and the reindexing; revalidation and healing; the index's queries;
-- validation reports; and the entry points.
pub mod Prelude
pub mod Storage
pub mod Models
pub mod Gate
pub mod Evidence
pub mod Lease
pub mod Retrieval
pub mod Context
pub mod Migration
pub mod Learning
pub mod Lifecycle
mod Tests
