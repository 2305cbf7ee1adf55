-- ===== src/Tests.antt =====
-- Runs of the model on small inputs, and each theorem at an input that meets its hypotheses.
mod RangesRuns
mod LruRuns
mod PoolRuns
mod TextRuns
mod VersionRuns
mod TaskRuns
mod IniRuns
mod DateRuns
mod TimerRuns
mod ConnectRuns
mod MqRuns
mod DbRuns
mod ParamRuns
