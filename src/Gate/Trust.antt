-- ===== src/Gate/Trust.antt =====
-- `combine_taint`, `instruction_authorized` and `trust_gate` of security.py.
use autonomic_obsidian_kb.Prelude.{
  ℕ, ◌≤◌, ◌<◌, String, ◌≡◌, refl, ◌≢◌, ◌↔◌, ◌⊎◌, inl, inr, Bool, true, false, not, ◌&&◌, none, some,
  List, [], ◌∷◌, arith, ltb, leb, if◌then◌else◌, Bool-cases, ltb→ge, ◌==◌, eq_iff, eq_refl,
  ne_of_test, test_of_ne, nat_eq, string_eq, list_eq, All, is_in, lookup, append,
}
use autonomic_obsidian_kb.Models.Floats.{Floats}
use native.Mathlib.Nat.{le_trans}

abbrev pub trusted_authorities : List String
trusted_authorities = "source-of-truth" ∷ "authoritative" ∷ "verified" ∷ "user-corrected" ∷ []

abbrev pub taint_order : List (String × ℕ)
taint_order =
    ("trusted", 0)
    ∷ ("derived", 1)
    ∷ ("external", 2)
    ∷ ("agent", 2)
    ∷ ("untrusted", 3)
    ∷ ("hostile", 4)
    ∷ ("unknown", 2)
    ∷ []

-- TAINT_ORDER.get(taint, 2)
unfoldable pub taint_rank : String → ℕ
unfolding lookup
taint_rank taint = elim (lookup taint taint_order) [ none ↦ 2 | some n ↦ n ]

-- max(values, key=...): the first of the largest
unfoldable pub worst : String → List String → String
unfolding taint_rank
worst best [] = best
worst best (v ∷ rest) = worst (if ltb (taint_rank best) (taint_rank v) then v else best) rest

unfoldable pub combine_taint : List String → String
unfolding worst
combine_taint [] = "unknown"
combine_taint (v ∷ rest) = worst v rest

unfoldable pub instruction_authorized : String → String → Bool → String → Bool × String
instruction_authorized memory_type authority authorized taint =
    if not (memory_type == "agent-instruction")
    then (true, "not privileged instruction")
    else if not authorized
    then (false, "agent-instruction lacks explicit authorization")
    else if not (is_in authority trusted_authorities)
    then (false, append "agent-instruction authority '" (append authority "' is not trusted"))
    else if leb (taint_rank "external") (taint_rank taint)
    then (false, append "agent-instruction taint=" (append taint " is not eligible for execution"))
    else (true, "instruction authorization passed")

-- What lets an instruction through.
pub instruction_cases :
    (memory_type authority : String) (authorized : Bool) (taint : String)
    → (instruction_authorized memory_type authority authorized taint).0 ≡ true
    → (memory_type ≢ "agent-instruction")
      ⊎ ((authorized ≡ true)
          × (is_in authority trusted_authorities ≡ true)
          × (taint_rank taint < taint_rank "external"))
unfolding instruction_authorized
instruction_cases memory_type authority authorized taint h =
    elim (Bool-cases (memory_type == "agent-instruction")) [
      | inl t ↦ inr (ground arith)
      | inr f ↦ inl (ne_of_test memory_type "agent-instruction" f)
    ]

abbrev pub retired_statuses : List String
retired_statuses = "quarantined" ∷ "archived" ∷ "superseded" ∷ "retracted" ∷ []

module _ (fl : Floats) where
  open fl use {F, lt, decimal, show_2}

  -- The argument `allow_untrusted` stands last.
  unfoldable pub trust_gate : String → String → F → String → Bool → String → Bool → Bool × String
  trust_gate status authority confidence memory_type authorized taint allow_untrusted =
      if is_in status retired_statuses
      then (false, append "status=" status)
      else if status == "conflicted"
      then (false, "unresolved contradiction")
      else if not (instruction_authorized memory_type authority authorized taint).0
      then (false, (instruction_authorized memory_type authority authorized taint).1)
      else if authority == "untrusted" && not allow_untrusted
      then (false, "untrusted provenance")
      else if taint == "hostile"
      then (false, "hostile provenance taint")
      else if lt confidence (decimal 35 2) && not allow_untrusted
      then (false, append "confidence " (append (show_2 confidence) " below trust gate"))
      else (true, "passed trust gate")

  -- What the gate lets through.
  pub record Trusted (status authority : String) (confidence : F) (memory_type : String)
      (authorized : Bool) (taint : String) (allow_untrusted : Bool) : Type 0 where
    pub current :
        is_in status ("quarantined" ∷ "archived" ∷ "superseded" ∷ "retracted" ∷ "conflicted" ∷ [])
        ≡ false
    pub instruction :
        (memory_type ≢ "agent-instruction")
        ⊎ ((authorized ≡ true)
            × (is_in authority trusted_authorities ≡ true)
            × (taint_rank taint < taint_rank "external"))
    pub provenance : (authority ≢ "untrusted") ⊎ (allow_untrusted ≡ true)
    pub not_hostile : taint ≢ "hostile"
    pub confident : (lt confidence (decimal 35 2) ≡ false) ⊎ (allow_untrusted ≡ true)

  module _ (status authority : String) (confidence : F) (memory_type : String) (authorized : Bool)
      (taint : String) (allow : Bool) where
    accepted-Trusted :
        (trust_gate status authority confidence memory_type authorized taint allow).0 ≡ true
        → Trusted status authority confidence memory_type authorized taint allow
    unfolding trust_gate
    accepted-Trusted h = record {
      current = ground arith;
      instruction = instruction_cases memory_type authority authorized taint (ground arith);
      provenance = ground (arith, eq_iff authority "untrusted");
      not_hostile = ground (arith, eq_iff taint "hostile");
      confident = ground arith;
    }

    instruction_ok :
        Trusted status authority confidence memory_type authorized taint allow
        → (instruction_authorized memory_type authority authorized taint).0 ≡ true
    unfolding instruction_authorized
    instruction_ok t = elim t.instruction [
      | inl e ↦ rw (test_of_ne memory_type "agent-instruction" e) refl
      | inr (a, b, c) ↦ ground arith
    ]

    Trusted-accepted :
        Trusted status authority confidence memory_type authorized taint allow
        → (trust_gate status authority confidence memory_type authorized taint allow).0 ≡ true
    unfolding trust_gate
    Trusted-accepted t = ground (
      arith,
      instruction_ok t,
      t.current,
      t.provenance,
      t.not_hostile,
      t.confident,
      eq_iff authority "untrusted",
      eq_iff taint "hostile",
    )

  -- The trust gate accepts a memory exactly when its status is none of quarantined, archived,
  -- superseded, retracted and conflicted; an agent instruction is authorized, of a trusted authority
  -- and of a taint below external; the authority is not untrusted, and the confidence not below 0.35,
  -- unless untrusted memories are allowed; and the taint is not hostile.
  pub trust_gate_iff :
      (status authority : String) (confidence : F) (memory_type : String) (authorized : Bool)
      (taint : String) (allow : Bool)
      → ((trust_gate status authority confidence memory_type authorized taint allow).0 ≡ true)
        ↔ Trusted status authority confidence memory_type authorized taint allow
  trust_gate_iff status authority confidence memory_type authorized taint allow = (
    accepted-Trusted status authority confidence memory_type authorized taint allow,
    Trusted-accepted status authority confidence memory_type authorized taint allow,
  )

ltb_le : (a b : ℕ) → ltb a b ≡ true → a ≤ b
ltb_le a b h = ground arith

unfoldable worse : String → String → String
worse a b = if ltb (taint_rank a) (taint_rank b) then b else a

worse_le :
    (a b : String)
    → (taint_rank a ≤ taint_rank (worse a b)) × (taint_rank b ≤ taint_rank (worse a b))
unfolding worse
worse_le a b = elim (Bool-cases (ltb (taint_rank a) (taint_rank b))) [
  | inl e ↦ rw e (ltb_le (taint_rank a) (taint_rank b) e, omega arith)
  | inr e ↦ rw e (omega arith, ltb→ge (taint_rank a) (taint_rank b) e)
]

worse_In : (a b : String) → (worse a b ≡ a) ⊎ (worse a b ≡ b)
unfolding worse
worse_In a b = elim (Bool-cases (ltb (taint_rank a) (taint_rank b))) [
  | inl e ↦ rw e (inr refl)
  | inr e ↦ rw e (inl refl)
]

worst-cons :
    (best v : String) (rest : List String) → worst best (v ∷ rest) ≡ worst (worse best v) rest
unfolding worst worse
worst-cons best v rest = refl

worst_max :
    (best : String) (values : List String)
    → All (λ v. taint_rank v ≤ taint_rank (worst best values)) (best ∷ values)
unfolding worst worse
worst_max best [] = (omega arith, tt)
worst_max best (v ∷ rest) =
    let (low, others) = worst_max (worse best v) rest in
    let (left, right) = worse_le best v in
    rw (worst-cons best v rest) (le_trans left low, (le_trans right low, others))

is_in-first :
    (w b v x : String) (rest : List String)
    → (x ≡ b) ⊎ (x ≡ v)
    → is_in w (x ∷ rest) ≡ true
    → is_in w (b ∷ v ∷ rest) ≡ true
is_in-first w b v x rest (inl e) h = let h' : is_in w (b ∷ rest) ≡ true = rw (← e) h in ground arith
is_in-first w b v x rest (inr e) h = let h' : is_in w (v ∷ rest) ≡ true = rw (← e) h in ground arith

worst_In : (best : String) (values : List String) → is_in (worst best values) (best ∷ values) ≡ true
unfolding worst worse
worst_In best [] = ground (arith, eq_refl best)
worst_In best (v ∷ rest) = rw (worst-cons best v rest) (
    is_in-first (worst (worse best v) rest) best v (worse best v) rest (worse_In best v)
      (worst_In (worse best v) rest))

-- The taint that `combine_taint` answers for a non-empty list is one of the list's, and no taint of
-- the list ranks above it.
pub combine_taint_max :
    (value : String) (values : List String)
    → (is_in (combine_taint (value ∷ values)) (value ∷ values) ≡ true)
      × All (λ v. taint_rank v ≤ taint_rank (combine_taint (value ∷ values))) (value ∷ values)
unfolding combine_taint
combine_taint_max value values = (worst_In value values, worst_max value values)
