-- ===== src/Tests.antt =====
-- Concrete instances of what the development takes as a parameter, and runs of the program on them.
mod World
mod RunnerRuns
mod ConfigRuns
mod StageRuns
mod AllocateRuns
mod ManagerRuns
mod ProviderRuns
mod DnsRuns
mod InstallRuns
mod VfkitRuns
mod OdfRuns
mod HostRuns
