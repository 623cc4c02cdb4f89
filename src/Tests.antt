-- ===== src/Tests.antt =====
-- Runs of the definitions, and the theorems at concrete data.
mod Samples
mod RedactRuns
mod RulesRuns
mod EngineRuns
mod ProviderRuns
mod MountRuns
mod ConfigRuns
mod HistoryRuns
