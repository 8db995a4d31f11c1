-- ===== src/Examples.antt =====
-- Concrete worlds, settings and events, and the theorems at them.
mod Store
mod Decimal
mod Settings
mod CacheRuns
mod ConfigRuns
mod ChannelRuns
mod HandlerRuns
mod JobRuns
mod LeakRuns
mod SpecRuns
mod RaceRuns
mod TimeRuns
mod MainRuns
mod MetricsRuns
mod ClusterRuns
