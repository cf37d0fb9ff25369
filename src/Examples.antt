-- ===== src/Examples.antt =====
-- Runs of the code on concrete inputs, and the theorems at such inputs.
mod Containers
mod Scheduling
mod Texts
mod Nodes
mod Processes
mod Runs
