-- ===== src/Examples.antt =====
-- Concrete inputs, and the theorems applied to them.
mod Data
mod Folds
mod Log
mod Values
mod Tables
