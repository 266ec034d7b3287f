-- ===== src/Engine/Crew.antt =====
-- src/core/engine.cpp: the workers of `WorkerLoopEventDriven` side by side. They share the counters
-- and the stop flag, and each has its own sessions; they take their rounds in any order. A worker
-- ends by closing its connections and stopping its network worker.
use titan_bench.Base.{
  ℕ, Bool, true, false, ◌||◌, List, [], ◌∷◌, Option, none, some, map, get_elem?, set, if◌then◌else◌,
}
use titan_bench.Cli.Options.{Config}
use titan_bench.Engine.Worker.{Work, Session, Sessions, create_all}
use titan_bench.Engine.Events.{Loop, Round, round}

pub data Phase : Type 0 where
  looping over : Phase

-- A worker: its sessions, and the connections that it has asked to close at its end.
pub record Hand : Type 0 where
  pub sessions : Sessions
  pub phase : Phase
  pub closing : List ℕ

abbrev pub ended : Sessions → Hand
ended sessions = record {
  sessions = [];
  phase = over;
  closing = map (λ (e : ℕ × Session). e.0) sessions;
}

-- Whether `Start` of the network worker fails, the clock, and the connections created at first.
pub record HandStart : Type 0 where
  pub start_failed : Bool
  pub now : ℕ
  pub created : List (Option ℕ)

unfoldable pub hand_opened : Sessions × Work → Hand × Work
hand_opened (sessions, w) = (record { sessions = sessions; phase = looping; closing = [] }, w)

unfoldable pub hand_start : HandStart → Work → Hand × Work
unfolding hand_opened create_all
hand_start a w =
    if a.start_failed
    then (record { sessions = []; phase = over; closing = [] }, record w { stop = true })
    else hand_opened (create_all a.now a.created [] w)

unfoldable pub start_crew : List HandStart → Work → List Hand × Work
unfolding hand_start
start_crew [] w = ([], w)
start_crew (a ∷ as') w =
    let (h, w') = hand_start a w in let (hs, w'') = start_crew as' w' in (h ∷ hs, w'')

abbrev pub hand_after : Loop → Hand × Work
hand_after l = (record { sessions = l.sessions; phase = looping; closing = [] }, l.work)

-- The test of the loop and one round of it.
unfoldable pub hand_turn : Config → ℕ → Round → Phase → Hand → Work → Hand × Work
unfolding round
hand_turn config size r over h w = (h, w)
hand_turn config size r looping h w =
    if w.stop || r.stop_seen
    then (ended h.sessions, w)
    else hand_after
        (round config size r (record { sessions = h.sessions; work = w; broken = false }))

unfoldable pub turn_at : Config → ℕ → Round → ℕ → Option Hand → List Hand × Work → List Hand × Work
unfolding hand_turn
turn_at config size r i none (hands, w) = (hands, w)
turn_at config size r i (some h) (hands, w) =
    let (h', w') = hand_turn config size r h.phase h w in (set hands i h', w')

unfoldable pub crew_turns : Config → ℕ → List (ℕ × Round) → List Hand × Work → List Hand × Work
unfolding turn_at
crew_turns config size [] p = p
crew_turns config size ((i, r) ∷ rest) p =
    crew_turns config size rest (turn_at config size r i (get_elem? p.0 i) p)
