-- ===== src/Scheduler.antt =====
-- scheduler.go: the scheduled jobs, their file, and the history of their runs. The cron engine
-- (github.com/robfig/cron) is not part of the repository: it is a parameter.
pub mod Jobs
pub mod History
pub mod File
pub mod Names
pub mod Tables
