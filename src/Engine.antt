-- ===== src/Engine.antt =====
-- src/core/engine.cpp: the shared counters, the request quota, the rate tokens, the split of the
-- connections over the workers and the event-driven worker.
pub mod Quota
pub mod Rate
pub mod Split
pub mod Payload
pub mod Worker
pub mod Events
pub mod Account
pub mod Serve
pub mod Crew
pub mod Crews
pub mod Https
pub mod Slots
pub mod Run
pub mod Final
pub mod Paced
mod Runs
mod Tests
