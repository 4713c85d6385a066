-- ===== src/Cmd.antt =====
-- The programs of cmd, put together from the packages of internal.
pub mod ConsumerMain
pub mod GatewayMain
pub mod ReportMain
pub mod LoadgenMain
