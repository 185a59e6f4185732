-- ===== src/Tests.antt =====
-- Runs of the models, and the theorems at concrete inputs.
mod StoreExamples
mod WireExamples
mod TraceExamples
mod TimingExamples
mod ContinuationExamples
mod ProtocolExamples
mod AssemblyExamples
mod SessionExamples
mod ExecutionExamples
