-- ===== src/Engine/Paced.antt =====
-- src/core/engine.cpp: the end of the main loop of `Run`, and its reports.
use titan_bench.Base.{
  ℕ, suc, ◌+◌, ◌*◌, ◌≤◌, ◌≡◌, refl, Bool, true, false, ◌||◌, List, [], ◌∷◌, Option, none, some,
  arith, if_holds, inl, inr, Bool-cases, sym, ◌∙◌, ◌↔◌, leb→le, le→leb,
}
use titan_bench.Cli.Options.{Config}
use titan_bench.Engine.Worker.{request_limit}
use titan_bench.Engine.Run.{
  Tick, time_is_up, Act, report_at, drain_only, MainLoop, report_due, main_loop,
}

-- A round that ends the run, seen or found by the loop.
abbrev pub ends_run : Config → ℕ → Tick → Bool
ends_run config end_ns t = t.stop_seen || time_is_up config end_ns t

abbrev pub some_round : (Tick → Bool) → List Tick → Bool
some_round p [] = false
some_round p (t ∷ ts) = p t || some_round p ts

abbrev pub is_left : Option Bool → Bool
is_left none = false
is_left (some b) = true

abbrev pub reports : List Act → ℕ
reports [] = 0
reports (report_at n ∷ acts) = suc (reports acts)
reports (drain_only ∷ acts) = reports acts

-- The readings of a steady clock, one after the other, from a time on.
abbrev pub Steady : ℕ → List Tick → Type 0
Steady from [] = Unit
Steady from (t ∷ ts) =
    (from ≤ t.now_ns)
    × ((t.now_ns ≤ t.progress_ns) × ((t.progress_ns ≤ t.after_ns) × Steady t.after_ns ts))

-- The last reading.
abbrev pub latest : ℕ → List Tick → ℕ
latest from [] = from
latest from (t ∷ ts) = latest t.after_ns ts

differs : false ≡ true → ⊥
differs h = cc

either : (b : Bool) → (b || true) ≡ true
either true = refl
either false = refl

latest_le : (from : ℕ) (ts : List Tick) → Steady from ts → from ≤ latest from ts
latest_le from [] s = omega arith
latest_le from (t ∷ ts) s = omega (arith, s.0, s.1.0, s.1.1.0, latest_le t.after_ns ts s.1.1.1)

left_by-main_loop :
    (config : Config) (cb : Bool) (end_ns : ℕ) (ts : List Tick) (last : ℕ)
    → is_left (main_loop config cb end_ns ts last).left_by ≡ some_round (ends_run config end_ns) ts
unfolding main_loop
left_by-main_loop config cb end_ns [] last = refl
left_by-main_loop config cb end_ns (t ∷ ts) last = elim (Bool-cases t.stop_seen) [
  | inl seen ↦ rw seen refl
  | inr unseen ↦ elim (Bool-cases (time_is_up config end_ns t)) [
    | inl up ↦ rw (unseen, up) refl
    | inr early ↦
        rw (unseen, early)
          (if_holds (λ (l : MainLoop). is_left l.left_by ≡ some_round (ends_run config end_ns) ts)
            (report_due cb last t) _ _ (λ _. left_by-main_loop config cb end_ns ts t.after_ns)
            (λ _. left_by-main_loop config cb end_ns ts last))
  ]
]

due_after :
    (cb : Bool) (last : ℕ) (t : Tick)
    → report_due cb last t ≡ true
    → last + 1000000000 ≤ t.progress_ns
unfolding report_due
due_after cb last t h = ground arith

reports_le :
    (config : Config) (cb : Bool) (end_ns : ℕ) (ts : List Tick) (last from : ℕ)
    → last ≤ from
    → Steady from ts
    → last + reports (main_loop config cb end_ns ts last).acts * 1000000000 ≤ latest from ts
unfolding main_loop
reports_le config cb end_ns [] last from h s = omega arith
reports_le config cb end_ns (t ∷ ts) last from h s =
    let bound = λ (l : MainLoop). last + reports l.acts * 1000000000 ≤ latest t.after_ns ts in
    let none_yet : last + 0 * 1000000000 ≤ latest t.after_ns ts =
      omega (arith, s.0, s.1.0, s.1.1.0, latest_le t.after_ns ts s.1.1.1) in
    if_holds bound t.stop_seen _ _ (λ _. none_yet)
      (λ _.
        if_holds bound (time_is_up config end_ns t) _ _ (λ _. none_yet)
          (λ _.
            if_holds bound (report_due cb last t) _ _
              (λ due. omega (
                arith,
                due_after cb last t due,
                s.1.1.0,
                reports_le config cb end_ns ts t.after_ns t.after_ns (omega arith) s.1.1.1,
              ))
              (λ _.
                reports_le config cb end_ns ts last t.after_ns (omega (arith, s.0, s.1.0, s.1.1.0))
                  s.1.1.1)))

-- The reasons to end the run, as the source's three tests give them.
pub data EndsRun (config : Config) (end_ns : ℕ) (t : Tick) : Type 0 where
  stopped : t.stop_seen ≡ true → EndsRun config end_ns t
  timed : config.has_duration ≡ true → end_ns ≤ t.now_ns → EndsRun config end_ns t
  counted :
      config.has_duration ≡ false
      → config.has_requests ≡ true
      → request_limit config.requests ≤ t.completed
      → EndsRun config end_ns t

pub data SomeRound (P : Tick → Type 0) : List Tick → Type 0 where
  here : (t : Tick) (ts : List Tick) → P t → SomeRound P (t ∷ ts)
  later : (t : Tick) (ts : List Tick) → SomeRound P ts → SomeRound P (t ∷ ts)

time_is_up-EndsRun :
    (config : Config) (end_ns : ℕ) (t : Tick)
    → time_is_up config end_ns t ≡ true
    → EndsRun config end_ns t
unfolding time_is_up
time_is_up-EndsRun config end_ns t h = elim (Bool-cases config.has_duration) [
  | inl lasts ↦ timed lasts (leb→le end_ns t.now_ns (rw lasts at h))
  | inr open_end ↦ elim (Bool-cases config.has_requests) [
    | inl counts ↦
        counted open_end counts
          (leb→le (request_limit config.requests) t.completed (rw (open_end, counts) at h))
    | inr free ↦ absurd (differs (rw (open_end, free) at h))
  ]
]

ends_run-EndsRun :
    (config : Config) (end_ns : ℕ) (t : Tick)
    → ends_run config end_ns t ≡ true
    → EndsRun config end_ns t
unfolding time_is_up
ends_run-EndsRun config end_ns t h = elim (Bool-cases t.stop_seen) [
  | inl seen ↦ stopped seen
  | inr unseen ↦ time_is_up-EndsRun config end_ns t (rw unseen at h)
]

EndsRun-ends_run :
    (config : Config) (end_ns : ℕ) (t : Tick)
    → EndsRun config end_ns t
    → ends_run config end_ns t ≡ true
unfolding time_is_up
EndsRun-ends_run config end_ns t (stopped seen) = rw seen
EndsRun-ends_run config end_ns t (timed lasts late) =
    rw (lasts, le→leb end_ns t.now_ns late) (either t.stop_seen)
EndsRun-ends_run config end_ns t (counted open_end counts all) =
    rw (open_end, counts, le→leb (request_limit config.requests) t.completed all)
      (either t.stop_seen)

some_round-SomeRound :
    (config : Config) (end_ns : ℕ) (ts : List Tick)
    → some_round (ends_run config end_ns) ts ≡ true
    → SomeRound (EndsRun config end_ns) ts
some_round-SomeRound config end_ns [] h = absurd (differs h)
some_round-SomeRound config end_ns (t ∷ ts) h = elim (Bool-cases (ends_run config end_ns t)) [
  | inl ends ↦ here t ts (ends_run-EndsRun config end_ns t ends)
  | inr goes ↦ later t ts (some_round-SomeRound config end_ns ts (rw goes at h))
]

SomeRound-some_round :
    (config : Config) (end_ns : ℕ) (ts : List Tick)
    → SomeRound (EndsRun config end_ns) ts
    → some_round (ends_run config end_ns) ts ≡ true
SomeRound-some_round config end_ns _ (here t ts e) = rw (EndsRun-ends_run config end_ns t e)
SomeRound-some_round config end_ns _ (later t ts e) =
    rw (SomeRound-some_round config end_ns ts e) (either (ends_run config end_ns t))

-- On a steady clock the main loop is left if and only if there is a round in which the stop flag is
-- set, the end time has been reached (with a duration), or the completed requests have reached
-- those asked for (with a number of them and no duration); and the reports handed to the callback
-- within the loop are no more than the full seconds from the begin to the last reading.
pub main_loop-left_by :
    (config : Config) (has_callback : Bool) (end_ns begin_ns : ℕ) (ts : List Tick)
    → Steady begin_ns ts
    → ((is_left (main_loop config has_callback end_ns ts begin_ns).left_by ≡ true)
        ↔ SomeRound (EndsRun config end_ns) ts)
      × (begin_ns + reports (main_loop config has_callback end_ns ts begin_ns).acts * 1000000000
          ≤ latest begin_ns ts)
main_loop-left_by config has_callback end_ns begin_ns ts s =
    let e = left_by-main_loop config has_callback end_ns ts begin_ns in
    (
      (
        λ h. some_round-SomeRound config end_ns ts (sym e ∙ h),
        λ r. e ∙ SomeRound-some_round config end_ns ts r,
      ),
      reports_le config has_callback end_ns ts begin_ns begin_ns (omega arith) s,
    )
