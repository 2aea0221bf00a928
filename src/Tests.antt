-- ===== src/Tests.antt =====
-- Runs of the model on small files, and the theorems applied to them.
mod Scans
mod Handles
mod Sources
mod Engines
mod Windows
mod Opens
mod Datasets
mod Commands
mod Fuzzing
