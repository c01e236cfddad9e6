-- ===== src/Core.antt =====
-- engine/p8_core.hpp and p8_core.cpp: the global core, by the part of its state that each group of
-- functions keeps.
pub mod Descriptor
pub mod Service
pub mod Names
pub mod Attributes
pub mod Modules
pub mod Metrics
pub mod LogDescs
pub mod Buffers
pub mod Transfer
pub mod Worker
pub mod Drops
pub mod Registry
pub mod Setup
