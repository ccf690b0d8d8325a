-- ===== src/Core.antt =====
-- lib/Core/src/SNFCore.
pub mod IniParser
pub mod WorkerSelection
pub mod TaskPool
pub mod TimerService
pub mod CommandLine
pub mod IoService
pub mod Timer
