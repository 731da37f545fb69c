-- ===== src/Tests.antt =====
-- Runs of the model at concrete inputs, and the theorems applied at such inputs.
mod Jobs
mod Manager
mod Execution
mod Registry
mod Api
mod Sweep
mod Lists
mod Store
mod Routines
mod Server
mod History
