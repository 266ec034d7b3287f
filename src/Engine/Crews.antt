-- ===== src/Engine/Crews.antt =====
-- src/core/engine.cpp: the books of event-driven workers side by side.
use titan_bench.Base.{
  ℕ, zero, suc, refl, false, ◌||◌, List, [], ◌∷◌, Option, none, some, get_elem?, set, All, arith,
  if_holds, inr,
}
use titan_bench.Cli.Options.{Config}
use titan_bench.Engine.Worker.{Work, fresh_work, Sessions}
use titan_bench.Engine.Events.{Loop, Round}
use titan_bench.Engine.Account.{Balanced, same_counts, Within, Kept, Sound, create_all-Sound}
use titan_bench.Engine.Serve.{round-SoundLoop}
use titan_bench.Engine.Crew.{
  Phase, looping, over, Hand, HandStart, hand_opened, hand_start, start_crew, hand_turn, turn_at,
  crew_turns,
}

-- All workers and the counters they share.
pub record SoundCrew (config : Config) (p : List Hand × Work) : Type 0 where
  pub balanced : Balanced p.1
  pub within : Within config p.1
  pub kept : All (λ (h : Hand). All Kept h.sessions) p.0

record GoodTurn (config : Config) (r : Hand × Work) : Type 0 where
  balanced : Balanced r.1
  within : Within config r.1
  kept : All Kept r.0.sessions

hand_turn-GoodTurn :
    (config : Config) (size : ℕ) (r : Round) (p : Phase) (h : Hand) (w : Work)
    → Balanced w
    → Within config w
    → All Kept h.sessions
    → GoodTurn config (hand_turn config size r p h w)
unfolding hand_turn
hand_turn-GoodTurn config size r over h w b i k = record { balanced = b; within = i; kept = k }
hand_turn-GoodTurn config size r looping h w b i k =
    if_holds (GoodTurn config) (w.stop || r.stop_seen) _ _
      (λ _. record { balanced = b; within = i; kept = tt })
      (λ _.
        let l : Loop = record { sessions = h.sessions; work = w; broken = false } in
        let s = round-SoundLoop config size r l (record { balanced = b; within = i; kept = k }) in
        record { balanced = s.balanced; within = s.within; kept = s.kept })

All-set-Kept :
    (hs : List Hand) (i : ℕ) (h : Hand)
    → All (λ (h : Hand). All Kept h.sessions) hs
    → All Kept h.sessions
    → All (λ (h : Hand). All Kept h.sessions) (set hs i h)
All-set-Kept [] i h a k = a
All-set-Kept (x ∷ xs) zero h a k = (k, a.1)
All-set-Kept (x ∷ xs) (suc i) h a k = (a.0, All-set-Kept xs i h a.1 k)

abbrev FoundKept : Option Hand → Type 0
FoundKept none = Unit
FoundKept (some h) = All Kept h.sessions

get_elem?-FoundKept :
    (hs : List Hand) (i : ℕ)
    → All (λ (h : Hand). All Kept h.sessions) hs
    → FoundKept (get_elem? hs i)
get_elem?-FoundKept [] i a = tt
get_elem?-FoundKept (x ∷ xs) zero a = a.0
get_elem?-FoundKept (x ∷ xs) (suc i) a = get_elem?-FoundKept xs i a.1

turn_at-SoundCrew :
    (config : Config) (size : ℕ) (r : Round) (i : ℕ) (o : Option Hand) (p : List Hand × Work)
    → FoundKept o
    → SoundCrew config p
    → SoundCrew config (turn_at config size r i o p)
unfolding turn_at
turn_at-SoundCrew config size r i none p k s = s
turn_at-SoundCrew config size r i (some h) (hs, w) k s =
    let g = hand_turn-GoodTurn config size r h.phase h w s.balanced s.within k in
    record {
      balanced = g.balanced;
      within = g.within;
      kept = All-set-Kept hs i (hand_turn config size r h.phase h w).0 s.kept g.kept;
    }

crew_turns_keep :
    (config : Config) (size : ℕ) (turns : List (ℕ × Round)) (p : List Hand × Work)
    → SoundCrew config p
    → SoundCrew config (crew_turns config size turns p)
unfolding crew_turns
crew_turns_keep config size [] p s = s
crew_turns_keep config size ((i, r) ∷ rest) p s =
    crew_turns_keep config size rest (turn_at config size r i (get_elem? p.0 i) p)
      (turn_at-SoundCrew config size r i (get_elem? p.0 i) p (get_elem?-FoundKept p.0 i s.kept) s)

hand_opened-GoodTurn :
    (config : Config) (q : Sessions × Work) → Sound config q.0 q.1 → GoodTurn config (hand_opened q)
unfolding hand_opened
hand_opened-GoodTurn config (sessions, w) s = record {
  balanced = s.balanced;
  within = s.within;
  kept = s.kept;
}

hand_start-GoodTurn :
    (config : Config) (a : HandStart) (w : Work)
    → Balanced w
    → Within config w
    → GoodTurn config (hand_start a w)
unfolding hand_start
hand_start-GoodTurn config a w b i =
    if_holds (GoodTurn config) a.start_failed _ _
      (λ _. record { balanced = same_counts w _ b refl refl refl refl; within = i; kept = tt })
      (λ _. hand_opened-GoodTurn config _ (
        create_all-Sound config a.now a.created [] w
          (record { balanced = b; within = i; kept = tt })))

start_crew-SoundCrew :
    (config : Config) (starts : List HandStart) (w : Work)
    → Balanced w
    → Within config w
    → SoundCrew config (start_crew starts w)
unfolding start_crew
start_crew-SoundCrew config [] w b i = record { balanced = b; within = i; kept = tt }
start_crew-SoundCrew config (a ∷ starts) w b i =
    let g = hand_start-GoodTurn config a w b i in
    let rest = start_crew-SoundCrew config starts (hand_start a w).1 g.balanced g.within in
    record { balanced = rest.balanced; within = rest.within; kept = (g.kept, rest.kept) }

pub crew_turns-SoundCrew :
    (config : Config) (size : ℕ) (starts : List HandStart) (turns : List (ℕ × Round))
    → SoundCrew config (crew_turns config size turns (start_crew starts fresh_work))
crew_turns-SoundCrew config size starts turns =
    crew_turns_keep config size turns (start_crew starts fresh_work) (
      start_crew-SoundCrew config starts fresh_work
        (record { completed = refl; succeeded = refl; failed = refl }) (inr (omega arith)))
