-- ===== src/Tests.antt =====
-- Runs of the models at concrete inputs, and the theorems applied there.
mod FeedRuns
mod LimiterRuns
mod StreamRuns
mod SuggestRuns
mod UpdateRuns
mod ToolRuns
mod StateRuns
mod VerifyRuns
mod CacheRuns
mod FailoverRuns
mod CommitRuns
mod HintRuns
