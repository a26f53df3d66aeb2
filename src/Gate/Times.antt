-- ===== src/Gate/Times.antt =====
-- The interval of validity of a memory and the time of a task.
use autonomic_obsidian_kb.Prelude.{
  ℕ, ◌≤◌, ◌<◌, String, ◌≡◌, refl, sym, ap, ◌∙◌, ◌↔◌, ◌⊎◌, inl, inr, Bool, true, false, not, ◌&&◌,
  Option, none, some, arith, if◌then◌else◌, leb→le, ltb→lt, &&_iff, &&_intro, is_some, nat_eq,
  string_eq, list_eq, some_inj, is_set,
}
use autonomic_obsidian_kb.Models.Task.{TaskContext}
use autonomic_obsidian_kb.Gate.Externals.{Externals}
use autonomic_obsidian_kb.Gate.Applicability.{
  zone_of_z, parse_time, started, not_ended, is_time_active, bad_time, time_of,
}

module _ (ex : Externals) where
  -- The time of a task is the one that its text is read as, or the present.
  pub IsAt : String → ℕ → Type 0
  IsAt s time =
      ((is_set s ≡ false) × (time ≡ ex.now))
      ⊎ ((is_set s ≡ true) × (ex.from_iso (zone_of_z s) ≡ some time))

  -- A start is not given, or a time that is not later.
  pub Started : String → ℕ → Type 0
  Started s time =
      (is_set s ≡ false) ⊎ ((t : ℕ) × ((ex.from_iso (zone_of_z s) ≡ some t) × (t ≤ time)))

  -- An end is not given, or a time that is later.
  pub NotEnded : String → ℕ → Type 0
  NotEnded s time =
      (is_set s ≡ false) ⊎ ((t : ℕ) × ((ex.from_iso (zone_of_z s) ≡ some t) × (time < t)))

  -- The time of a task lies in the half-open interval of validity.
  pub record Active (at from to : String) : Type 0 where
    pub time : ℕ
    pub is_at : IsAt at time
    pub start : Started from time
    pub end : NotEnded to time

  start_iff :
      (b : Bool) (o : Option ℕ) (time : ℕ)
      → (((b && not (is_some (if b then o else none))) ≡ false)
          × (started ex (if b then o else none) time ≡ true))
        ↔ ((b ≡ false) ⊎ ((t : ℕ) × ((o ≡ some t) × (t ≤ time))))
  unfolding started
  start_iff false o time = (λ h. inl refl, λ h. (refl, refl))
  start_iff true none time =
      (λ h. let f = h.0 in cc, λ h. elim h [ inl e ↦ cc | inr (t, (e, f)) ↦ cc ])
  start_iff true (some s) time = (
    λ h. let l = leb→le s time h.1 in inr (s, (refl, l)),
    λ h. elim h [ inl e ↦ cc | inr (t, (e, f)) ↦ let p = some_inj e in (refl, ground (arith, p)) ],
  )

  end_iff :
      (b : Bool) (o : Option ℕ) (time : ℕ)
      → (((b && not (is_some (if b then o else none))) ≡ false)
          × (not_ended ex (if b then o else none) time ≡ true))
        ↔ ((b ≡ false) ⊎ ((t : ℕ) × ((o ≡ some t) × (time < t))))
  unfolding not_ended
  end_iff false o time = (λ h. inl refl, λ h. (refl, refl))
  end_iff true none time =
      (λ h. let f = h.0 in cc, λ h. elim h [ inl e ↦ cc | inr (t, (e, f)) ↦ cc ])
  end_iff true (some s) time = (
    λ h. let l = ltb→lt time s h.1 in inr (s, (refl, l)),
    λ h. elim h [ inl e ↦ cc | inr (t, (e, f)) ↦ let p = some_inj e in (refl, ground (arith, p)) ],
  )

  abbrev or_now : Option ℕ → ℕ
  or_now none = ex.now
  or_now (some t) = t

  at_forth :
      (b : Bool) (o : Option ℕ)
      → (b && not (is_some (if b then o else none))) ≡ false
      → ((b ≡ false) × (or_now (if b then (if b then o else none) else none) ≡ ex.now))
        ⊎ ((b ≡ true) × (o ≡ some (or_now (if b then (if b then o else none) else none))))
  at_forth false o h = inl (refl, refl)
  at_forth true none h = cc
  at_forth true (some t) h = inr (refl, refl)

  at_back :
      (b : Bool) (o : Option ℕ) (time : ℕ)
      → ((b ≡ false) × (time ≡ ex.now)) ⊎ ((b ≡ true) × (o ≡ some time))
      → ((b && not (is_some (if b then o else none))) ≡ false)
        × (or_now (if b then (if b then o else none) else none) ≡ time)
  at_back false o time (inl (e, f)) = (refl, sym f)
  at_back false o time (inr (e, f)) = cc
  at_back true o time (inl (e, f)) = cc
  at_back true none time (inr (e, f)) = cc
  at_back true (some t) time (inr (e, f)) = (refl, some_inj f)

  module _ (F : Type 0) (context : TaskContext) (from to : String) where
    pub tests-Active :
        bad_time ex context.at ≡ false
        → bad_time ex from ≡ false
        → bad_time ex to ≡ false
        → is_time_active ex from to (time_of F ex context) ≡ true
        → Active context.at from to
    unfolding bad_time parse_time time_of is_time_active IsAt Started NotEnded
    tests-Active a b c d =
        let (s, e) = &&_iff _ _ d in
        record {
          time = or_now (time_of F ex context);
          is_at = at_forth (is_set context.at) (ex.from_iso (zone_of_z context.at)) a;
          start = (start_iff (is_set from) (ex.from_iso (zone_of_z from)) _).0 (b, s);
          end = (end_iff (is_set to) (ex.from_iso (zone_of_z to)) _).0 (c, e);
        }

    pub Active-tests :
        Active context.at from to
        → (bad_time ex context.at ≡ false)
          × (bad_time ex from ≡ false)
          × (bad_time ex to ≡ false)
          × (is_time_active ex from to (time_of F ex context) ≡ true)
    unfolding bad_time parse_time time_of is_time_active IsAt Started NotEnded
    Active-tests a =
        let (p, q) =
          at_back (is_set context.at) (ex.from_iso (zone_of_z context.at)) a.time a.is_at in
        let (r, s) = (start_iff (is_set from) (ex.from_iso (zone_of_z from)) a.time).1 a.start in
        let (t, u) = (end_iff (is_set to) (ex.from_iso (zone_of_z to)) a.time).1 a.end in
        (
          p,
          r,
          t,
          &&_intro (started ex (parse_time ex from) (or_now (time_of F ex context)))
              (not_ended ex (parse_time ex to) (or_now (time_of F ex context)))
              (ap (started ex (parse_time ex from)) q ∙ s)
              (ap (not_ended ex (parse_time ex to)) q ∙ u),
        )
