-- ===== src/Tests.antt =====
-- Runs of the definitions on the sample data, and the theorems applied to it.
mod Stores
mod Catalogue
mod Services
mod Access
mod Jobs
