-- ===== src/Examples.antt =====
-- Runs of the model at concrete inputs, by the part of the program that they exercise.
mod Kit
mod Budgets
mod Pools
mod Formats
mod Sinks
mod Services
mod Setups
mod Registries
mod Writers
mod Records
mod Workers
mod Drops
mod Buffers
