-- ===== src/Tests.antt =====
-- Runs of the model, and the theorems at concrete data.
mod World
mod Fencing
mod VolumeSync
mod Labels
mod Mutation
mod SharedVolumes
mod Rounds
mod Session
mod Polling
mod Start
mod Mock
