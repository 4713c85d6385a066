-- ===== src/Examples.antt =====
-- Runs of the models on small inputs.
mod Systems
mod ConsumerRuns
mod SinkRuns
mod ClientRuns
mod PoolRuns
mod GatewayRuns
mod ReportRuns
mod ChartRuns
mod ToolRuns
mod CmdRuns
mod LosstestRuns
mod GatewayMainRuns
mod ResultRuns
mod LoadgenRuns
mod PipelineRuns
