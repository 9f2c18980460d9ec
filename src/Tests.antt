-- ===== src/Tests.antt =====
-- Runs of the definitions on concrete inputs, and the theorems at concrete inputs.
mod Queues
mod Machine
mod Protocol
mod Runtime
mod Owners
mod Start
mod Threads
mod Waiting
mod Waves
mod Polling
mod Worker
mod Demo
mod Control
