-- ===== src/Pipeline.antt =====
-- core/pipelines/PipelineCompiler.ts: the handlers of each phase, what a failed or aborted handler
-- leads to, and the loop over the phases.
pub mod Failure
pub mod Run
pub mod Compile
