-- ===== src/Tests.antt =====
-- Runs of the model on small states, and the theorems at those states.
mod Running
mod Fixtures
mod SlotRuns
mod CommitteeRuns
mod EpochRuns
mod OperationRuns
mod ForkRunning
mod ForkRuns
mod ClientRuns
mod GenesisRuns
