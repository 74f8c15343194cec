-- ===== src/Runs.antt =====
-- Runs of the services on a small database, and each theorem at concrete arguments.
mod Database
mod Workflow
mod Services
mod Dispatch
mod Money
mod Closing
mod Events
mod Codes
