-- ===== src/Engine/Slots/Turns.antt =====
-- src/core/engine.cpp: all HTTPS slots of a run, round by round.
use titan_bench.Base.{
  ℕ, zero, suc, refl, List, [], ◌∷◌, Option, none, some, get_elem?, set, All, arith, inr,
}
use titan_bench.Cli.Options.{Config}
use titan_bench.Tls.Wait.{Failure}
use titan_bench.Tls.Client.{Client, new_client, InitAnswer}
use titan_bench.Tls.Owned.{Owned, init-Owned, new_client-Owned}
use titan_bench.Engine.Worker.{Work, fresh_work}
use titan_bench.Engine.Https.{
  looping, Slot, SlotRound, started_slot, slot_start, start_slots, turn_of, slot_turns,
}
use titan_bench.Engine.Slots.{Booked, Tidy, leave-Tidy, GoodTurn, recount, slot_turn-GoodTurn}

-- All slots and the counters they share.
pub record SoundSlots (config : Config) (p : List Slot × Work) : Type 0 where
  pub tidy : All Tidy p.0
  pub booked : Booked config p.1

All-set-Tidy : (xs : List Slot) (i : ℕ) (s : Slot) → All Tidy xs → Tidy s → All Tidy (set xs i s)
All-set-Tidy [] i s h t = h
All-set-Tidy (x ∷ xs) zero s h t = (t, h.1)
All-set-Tidy (x ∷ xs) (suc i) s h t = (h.0, All-set-Tidy xs i s h.1 t)

-- The slot that was found, if one was.
abbrev FoundTidy : Option Slot → Type 0
FoundTidy none = Unit
FoundTidy (some s) = Tidy s

get_elem?-FoundTidy : (xs : List Slot) (i : ℕ) → All Tidy xs → FoundTidy (get_elem? xs i)
get_elem?-FoundTidy [] i h = tt
get_elem?-FoundTidy (x ∷ xs) zero h = h.0
get_elem?-FoundTidy (x ∷ xs) (suc i) h = get_elem?-FoundTidy xs i h.1

turn_of-SoundSlots :
    (config : Config) (a : SlotRound) (i : ℕ) (o : Option Slot) (p : List Slot × Work)
    → FoundTidy o
    → SoundSlots config p
    → SoundSlots config (turn_of config a i o p)
unfolding turn_of
turn_of-SoundSlots config a i none p t h = h
turn_of-SoundSlots config a i (some s) (xs, w) t h =
    let g = slot_turn-GoodTurn config a s.phase s w t refl h.booked in
    record { tidy = All-set-Tidy xs i _ h.tidy g.tidy; booked = g.booked }

slot_turns_keep :
    (config : Config) (turns : List (ℕ × SlotRound)) (p : List Slot × Work)
    → SoundSlots config p
    → SoundSlots config (slot_turns config turns p)
unfolding slot_turns
slot_turns_keep config [] p h = h
slot_turns_keep config ((i, a) ∷ rest) p h =
    slot_turns_keep config rest _
      (turn_of-SoundSlots config a i _ p (get_elem?-FoundTidy p.0 i h.tidy) h)

started_slot-GoodTurn :
    (config : Config) (r : Client × Option Failure) (w : Work)
    → Owned r.0
    → Booked config w
    → GoodTurn config (started_slot r w)
unfolding started_slot
started_slot-GoodTurn config (c, none) w o b = record {
  tidy = record { retries = omega arith; owned = o; rest = tt };
  booked = b;
}
started_slot-GoodTurn config (c, some f) w o b = record {
  tidy = leave-Tidy (record { client = c; retry = 0; phase = looping }) (omega arith) o;
  booked = recount config w _ b refl refl refl refl refl;
}

start_slots-SoundSlots :
    (config : Config) (answers : List InitAnswer) (w : Work)
    → Booked config w
    → SoundSlots config (start_slots answers w)
unfolding start_slots slot_start
start_slots-SoundSlots config [] w b = record { tidy = tt; booked = b }
start_slots-SoundSlots config (a ∷ answers) w b =
    let g = started_slot-GoodTurn config _ w (init-Owned a new_client new_client-Owned) b in
    let rest = start_slots-SoundSlots config answers _ g.booked in
    record { tidy = (g.tidy, rest.tidy); booked = rest.booked }

-- Any number of HTTPS slots that share the counters of a run, started from zero, in any order of
-- their rounds and whatever wolfSSL and the servers answer: the completed, succeeded and failed
-- requests are the numbers of samples recorded, of those with success and of those without, modulo
-- 2^64; no more requests are started than were asked for, when a number was given; no slot has
-- more than three retries; and every descriptor and wolfSSL object of a slot's client is held or
-- has been given back, and when the slot has returned it holds none.
pub slot_turns-SoundSlots :
    (config : Config) (answers : List InitAnswer) (turns : List (ℕ × SlotRound))
    → SoundSlots config (slot_turns config turns (start_slots answers fresh_work))
slot_turns-SoundSlots config answers turns = slot_turns_keep config turns _ (
    start_slots-SoundSlots config answers fresh_work (record {
      balanced = record { completed = refl; succeeded = refl; failed = refl };
      within = inr (omega arith);
    }))
