-- ===== src/Gate/Chain.antt =====
-- The early returns of the gates, for tests of any kind.
use autonomic_obsidian_kb.Prelude.{
  String, Bool, true, false, not, ◌||◌, ◌≡◌, ◌↔◌, Option, none, some, if◌then◌else◌, arith,
}

pub read_chain :
    (schema status type inbox danger : Bool) (trust : Bool × String) (scope time : Bool)
    (a b c d e f : String)
    → ((if not schema || not status || not type
          then (false, a)
          else if inbox
          then (false, b)
          else if danger
          then (false, c)
          else if not trust.0
          then trust
          else if not scope
          then (false, d)
          else if not time
          then (false, e)
          else (true, f)).0
        ≡ true)
      ↔ ((schema ≡ true)
          × (status ≡ true)
          × (type ≡ true)
          × (inbox ≡ false)
          × (danger ≡ false)
          × (trust.0 ≡ true)
          × (scope ≡ true)
          × (time ≡ true))
read_chain schema status type inbox danger trust scope time a b c d e f =
    (λ h. ground arith, λ h. ground arith)

pub time_chain :
    (at from to active : Bool) (version commit : Option String) (sources : Bool × String)
    (a b : String)
    → ((if at || from || to
          then (false, a)
          else if not active
          then (false, b)
          else elim version as (λ v. Bool × String) [
            | some reason ↦ (false, reason)
            | none ↦ elim commit as (λ v. Bool × String) [
              | some reason ↦ (false, reason)
              | none ↦ sources
            ]
          ]).0
        ≡ true)
      ↔ ((at ≡ false)
          × (from ≡ false)
          × (to ≡ false)
          × (active ≡ true)
          × (version ≡ none)
          × (commit ≡ none)
          × (sources.0 ≡ true))
time_chain at from to active version commit sources a b = (λ h. ground arith, λ h. ground arith)
