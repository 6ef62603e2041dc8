-- ===== src/FitingTree/Tests.antt =====
-- Runs of the code on concrete inputs: whole numbers for `double`, a list for the B+ tree, and a
-- segment for each key.
pub mod Setup
mod Leaves
mod Inplace
mod Buffer
