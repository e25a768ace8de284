-- ===== src/Tests.antt =====
-- The properties at concrete inputs.
mod Data
mod PolicyRuns
mod StoreRuns
mod PipelineRuns
mod ReconciliationRuns
mod DiagnosisRuns
mod LiveRuns
mod HarnessRuns
mod MetricsRuns
mod LoggerRuns
mod ConfigRuns
mod DashboardRuns
mod ValidationRuns
