-- ===== src/Examples.antt =====
-- Concrete runs: the theorems at inputs where their hypotheses hold.
mod Runs
mod Texts
mod Aggregates
mod Named
mod Status
mod Values
mod Cases
mod Printing
mod Options
mod Evaluation
mod Rounds
mod Text
mod Rewriting
