-- ===== src/Tests.antt =====
-- Runs of the models on concrete data, and the theorems at inputs that meet their hypotheses.
mod Queue
mod QueueRuns
mod Fanout
mod OutboxRuns
mod Stores
mod QueueReads
mod Executions
mod Workers
mod Admissions
mod Messages
mod Rollups
mod Writes
