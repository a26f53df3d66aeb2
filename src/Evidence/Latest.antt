-- ===== src/Evidence/Latest.antt =====
-- What the ledger of evidence.py promises of the last operation of a memory.
use autonomic_obsidian_kb.Prelude.{
  ◌≤◌, ◌<◌, String, ◌≡◌, refl, sym, ap, ◌∙◌, subst, ◌≢◌, ◌⊎◌, inl, inr, Bool, true, false, not,
  some, List, [], ◌∷◌, ◌++◌, arith, if◌then◌else◌, Bool-cases, ◌==◌, eq_iff, test_of_ne, nat_eq,
  string_eq, list_eq, All, In, here, there, All-of_In, In-All, All-append_left, All-append_right,
  In-insert, is_in, All-append, All-map, insert, All-insert, Exception, value_error, Result, ok,
  raise, raise_if, ok_inj, is_set, text_le, append,
}
use autonomic_obsidian_kb.Prelude.Sort.{sort, In-sort, sorted_bound, All-sort, last_of_sort, last}
use autonomic_obsidian_kb.Evidence.Records.{MemoryOperation, OperationCodec, valid_operations}
use autonomic_obsidian_kb.Evidence.Ledger.{
  Entry, read_operation, read_operations, not_after, iter_operations, last_for, digest_of,
  next_sequence, conflicts, operation_path, operation_record, append_operation,
}

module _ (F : Type 0) (codec : OperationCodec F) where
  up : (a b : MemoryOperation F) → not_after F codec a b ≡ true → a.sequence ≤ b.sequence
  unfolding not_after
  up a b h = ground arith

  down : (a b : MemoryOperation F) → not_after F codec a b ≡ false → b.sequence ≤ a.sequence
  unfolding not_after
  down a b h = ground arith

  module _ (memory_id : String) (P : MemoryOperation F → Type 0) where
    -- What holds of the operation of a file, where it is about the memory.
    OfFile : (String × codec.Content) → Type 0
    OfFile f = All P (read_operation F codec memory_id (codec.decode f.1))

    read-All :
        (files : List (String × codec.Content))
        → All OfFile files
        → All P (read_operations F codec memory_id files)
    unfolding read_operations OfFile
    read-All [] h = tt
    read-All (f ∷ files) h =
        All-append P (read_operation F codec memory_id (codec.decode f.1))
          (read_operations F codec memory_id files) h.0 (read-All files h.1)

    All-read :
        (files : List (String × codec.Content))
        → All P (read_operations F codec memory_id files)
        → All OfFile files
    unfolding read_operations OfFile
    All-read [] h = tt
    All-read (f ∷ files) h = (
      All-append_left P (read_operation F codec memory_id (codec.decode f.1))
          (read_operations F codec memory_id files) h,
      All-read files (
          All-append_right P (read_operation F codec memory_id (codec.decode f.1))
            (read_operations F codec memory_id files) h),
    )

  In-append_left :
      (m : MemoryOperation F) (xs ys : List (MemoryOperation F)) → In m xs → In m (xs ++ ys)
  In-append_left m [] ys i = elim i [ ]
  In-append_left m (x ∷ xs) ys here = here
  In-append_left m (x ∷ xs) ys (there i) = there (In-append_left m xs ys i)

  In-append_right :
      (m : MemoryOperation F) (xs ys : List (MemoryOperation F)) → In m ys → In m (xs ++ ys)
  In-append_right m [] ys i = i
  In-append_right m (x ∷ xs) ys i = there (In-append_right m xs ys i)

  read-In :
      (memory_id : String) (m : MemoryOperation F) (path : String) (content : codec.Content)
      (files : List (String × codec.Content))
      → codec.decode content ≡ some m
      → m.memory_id ≡ memory_id
      → In (path, content) files
      → In m (read_operations F codec memory_id files)
  unfolding read_operations read_operation
  read-In memory_id m path content [] d e i = elim i [ ]
  read-In memory_id m path content (f ∷ files) d e here =
      In-append_left m (read_operation F codec memory_id (codec.decode content))
        (read_operations F codec memory_id files)
        (subst (λ o. In m (read_operation F codec memory_id o)) (sym d)
          (own ((eq_iff m.memory_id memory_id).1 e)))
    where
      own :
          (m.memory_id == memory_id) ≡ true → In m (if m.memory_id == memory_id then m ∷ [] else [])
      own t = rw t here
  read-In memory_id m path content (f ∷ files) d e (there i) =
      In-append_right m (read_operation F codec memory_id (codec.decode f.1))
        (read_operations F codec memory_id files) (read-In memory_id m path content files d e i)

  by_path : (String × codec.Content) → (String × codec.Content) → Bool
  by_path a b = text_le a.0 b.0

  All-below :
      (ops : List (MemoryOperation F))
      → All (λ o. o.sequence < next_sequence F codec (last (sort (not_after F codec) ops))) ops
  unfolding next_sequence
  All-below ops = elim (sorted_bound (not_after F codec) (λ o. o.sequence) up down ops) [
    | inl e ↦ rw e tt
    | inr (w, e, k) ↦ rw e (
        All-map (λ o. o.sequence ≤ w.sequence) (λ o. o.sequence < next_sequence F codec (some w))
          ops (λ o. above o w) k)
  ]
    where
      above :
          (o w : MemoryOperation F)
          → o.sequence ≤ w.sequence
          → o.sequence < next_sequence F codec (some w)
      above o w h = omega arith

  module _ (memory_id : String) (files : List (String × codec.Content)) where
    -- Every operation of the memory stands below the next sequence number.
    below_next :
        All
          (OfFile memory_id
            (λ o. o.sequence < next_sequence F codec (last_for F codec memory_id files)))
          files
    unfolding last_for iter_operations by_path
    below_next =
        let P : MemoryOperation F → Type 0 =
          λ o. o.sequence < next_sequence F codec (last_for F codec memory_id files) in
        let sorted =
          All-read memory_id P (sort by_path files)
            (All-below (read_operations F codec memory_id (sort by_path files))) in
        All-of_In (OfFile memory_id P) files (λ f i.
          In-All (OfFile memory_id P) f (sort by_path files) (In-sort by_path f files i) sorted)

    module _ (path : String) (content : codec.Content) (m : MemoryOperation F)
        (decodes : codec.decode content ≡ some m) (mine : m.memory_id ≡ memory_id)
        (next : m.sequence ≡ next_sequence F codec (last_for F codec memory_id files)) where
      NewOrBelow : MemoryOperation F → Type 0
      NewOrBelow o = (o ≡ m) ⊎ (o.sequence < m.sequence)

      mine_only : All NewOrBelow (read_operation F codec memory_id (some m))
      unfolding read_operation NewOrBelow
      mine_only = rw ((eq_iff m.memory_id memory_id).1 mine) (inl refl, tt)

      new_file : OfFile memory_id NewOrBelow (path, content)
      unfolding OfFile
      new_file =
          subst (λ o. All NewOrBelow (read_operation F codec memory_id o)) (sym decodes) mine_only

      old_files : All (OfFile memory_id NewOrBelow) files
      unfolding OfFile NewOrBelow
      old_files =
          let P : MemoryOperation F → Type 0 =
            λ o. o.sequence < next_sequence F codec (last_for F codec memory_id files) in
          All-map (OfFile memory_id P) (OfFile memory_id NewOrBelow) files
            (λ f h.
              All-map P NewOrBelow (read_operation F codec memory_id (codec.decode f.1))
                (λ o l. inr (rw next l)) h)
            below_next

      last_after : last_for F codec memory_id (insert path content files) ≡ some m
      unfolding last_for iter_operations NewOrBelow by_path
      last_after =
          let after = insert path content files in
          let ops = read_operations F codec memory_id (sort by_path after) in
          last_of_sort (not_after F codec) (λ o. o.sequence) up down m ops
            (read-In memory_id m path content (sort by_path after) decodes mine
              (In-sort by_path (path, content) after (In-insert path content files)))
            (read-All memory_id NewOrBelow (sort by_path after) (
              All-sort by_path (OfFile memory_id NewOrBelow) after
                (All-insert (OfFile memory_id NewOrBelow) path content files new_file old_files)))

iter_below :
    (F : Type 0) (codec : OperationCodec F) (memory_id : String)
    (files : List (String × codec.Content))
    → All
        (λ o. o.sequence < next_sequence F codec (last_for F codec memory_id files))
        (iter_operations F codec memory_id files)
unfolding last_for iter_operations
iter_below F codec memory_id files =
    let P : MemoryOperation F → Type 0 =
      λ o. o.sequence < next_sequence F codec (last_for F codec memory_id files) in
    let ops = read_operations F codec memory_id (sort (λ a b. text_le a.0 b.0) files) in
    All-sort (not_after F codec) P ops (All-below F codec ops)

past_all :
    {A : Type 0} (a b c : Bool) (x y z : Exception) (m : Result A) {v : A}
    → raise_if a x (raise_if b y (raise_if c z m)) ≡ ok v
    → m ≡ ok v
past_all false false false x y z m h = h
past_all true b c x y z m h = cc
past_all false true c x y z m h = cc
past_all false false true x y z m h = cc

-- What an append that was done leaves as the last operation, and its digest.
latest_after :
    (F : Type 0) (codec : OperationCodec F)
    → ((o : MemoryOperation F) → codec.decode (codec.encode o) ≡ some o)
    → (utc_now uuid operation memory_id : String) (entry : Entry F)
      (files : List (String × codec.Content)) (r : MemoryOperation F)
      (after : List (String × codec.Content))
    → append_operation F codec utc_now uuid operation memory_id entry files ≡ ok (r, after)
    → (last_for F codec memory_id after ≡ some r) × (r.new_digest ≡ entry.new_digest)
unfolding append_operation operation_record
latest_after F codec decode-encode utc_now uuid operation memory_id entry files r after done =
    let latest = last_for F codec memory_id files in
    let m = operation_record F codec utc_now uuid (codec.upper operation) memory_id entry latest in
    let path = operation_path F codec m in
    let pair = ok_inj (
      past_all (not (is_in (codec.upper operation) valid_operations))
        (conflicts F codec entry.require_previous (digest_of F codec latest)) (codec.has_secret m) _
        _ _ _ done) in
    let last =
      last_after F codec memory_id files path (codec.encode m) m (decode-encode m) refl refl in
    subst
      (λ (t : MemoryOperation F × List (String × codec.Content)).
        (last_for F codec memory_id t.1 ≡ some t.0) × (t.0.new_digest ≡ entry.new_digest))
      pair (last, refl)

conflicting :
    (F : Type 0) (codec : OperationCodec F) (required actual : String)
    → required ≢ actual
    → conflicts F codec (some required) actual ≡ true
unfolding conflicts
conflicting F codec required actual differs =
    rw (test_of_ne actual required (λ e. differs (sym e))) refl

-- A requirement that the ledger does not meet.
refused :
    (F : Type 0) (codec : OperationCodec F) (utc_now uuid operation memory_id : String)
    (entry : Entry F) (files : List (String × codec.Content)) (required : String)
    → entry.require_previous ≡ some required
    → required ≢ digest_of F codec (last_for F codec memory_id files)
    → (message : String) × (append_operation F codec utc_now uuid operation memory_id entry files
        ≡ raise (value_error message))
unfolding append_operation
refused F codec utc_now uuid operation memory_id entry files required asks differs =
    let actual = digest_of F codec (last_for F codec memory_id files) in
    let conflict : conflicts F codec entry.require_previous actual ≡ true =
      ap (λ o. conflicts F codec o actual) asks ∙ conflicting F codec required actual differs in
    elim (Bool-cases (is_in (codec.upper operation) valid_operations)) [
      | inr e ↦ (append "unsupported memory operation: " (codec.upper operation), rw e refl)
      | inl e ↦ (append "memory " (append memory_id " changed concurrently"), rw (e, conflict) refl)
    ]

-- An operation that is known and without secrets, under the digest that it requires, if it requires
-- one, is appended; it is then the last of its memory, carries the next sequence number, which is
-- above those of all the memory's operations in the ledger before, and links to the previous digest
-- given or, where none is, to the digest that the last of them left.
pub append_operation-last_for :
    (F : Type 0) (codec : OperationCodec F)
    → ((o : MemoryOperation F) → codec.decode (codec.encode o) ≡ some o)
    → (utc_now uuid operation memory_id : String) (entry : Entry F)
      (files : List (String × codec.Content))
    → is_in (codec.upper operation) valid_operations ≡ true
    → conflicts F codec entry.require_previous
        (digest_of F codec (last_for F codec memory_id files))
      ≡ false
    → codec.has_secret (
        operation_record F codec utc_now uuid
          (codec.upper operation)
          memory_id
          entry
          (last_for F codec memory_id files))
      ≡ false
    → (r : MemoryOperation F) × (after : List (String × codec.Content)) × (append_operation F codec
          utc_now uuid operation memory_id entry files
        ≡ ok (r, after))
      × (last_for F codec memory_id after ≡ some r)
      × (r.sequence ≡ next_sequence F codec (last_for F codec memory_id files))
      × All (λ o. o.sequence < r.sequence) (iter_operations F codec memory_id files)
      × (r.previous_digest ≡ (
          if is_set entry.previous_digest
          then entry.previous_digest
          else digest_of F codec (last_for F codec memory_id files)))
unfolding append_operation operation_record
append_operation-last_for F codec decode-encode utc_now uuid operation memory_id entry files known
      free clean =
    let latest = last_for F codec memory_id files in
    let r = operation_record F codec utc_now uuid (codec.upper operation) memory_id entry latest in
    let path = operation_path F codec r in
    (
      r,
      insert path (codec.encode r) files,
      rw (known, free, clean) refl,
      last_after F codec memory_id files path (codec.encode r) r (decode-encode r) refl refl,
      refl,
      iter_below F codec memory_id files,
      refl,
    )

-- Once an append has left a digest for a memory, an append for the same memory that requires a
-- different digest raises a ValueError.
pub append_operation_conflict :
    (F : Type 0) (codec : OperationCodec F)
    → ((o : MemoryOperation F) → codec.decode (codec.encode o) ≡ some o)
    → (utc_now uuid operation memory_id : String) (entry : Entry F)
      (files : List (String × codec.Content)) (r : MemoryOperation F)
      (after : List (String × codec.Content))
    → append_operation F codec utc_now uuid operation memory_id entry files ≡ ok (r, after)
    → (later fresh second : String) (next : Entry F) (required : String)
    → next.require_previous ≡ some required
    → required ≢ entry.new_digest
    → (message : String) × (append_operation F codec later fresh second memory_id next after
        ≡ raise (value_error message))
unfolding digest_of
append_operation_conflict F codec decode-encode utc_now uuid operation memory_id entry files r after
      done later fresh second next required asks differs =
    refused F codec later fresh second memory_id next after required asks (λ e. differs (
      e
      ∙ ap (digest_of F codec)
          (latest_after F codec decode-encode utc_now uuid operation memory_id entry files r after
            done).0
      ∙ (latest_after F codec decode-encode utc_now uuid operation memory_id entry files r after
          done).1))
