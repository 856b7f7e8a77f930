-- ===== src/Tests.antt =====
-- Runs of the modelled code, and instances of the theorems, at concrete inputs; one child per part.
pub mod Data
mod Rings
mod Tables
mod Entry
mod Guides
mod Memory
mod Heaps
mod Tags
mod Tasks
mod TaskLife
mod Users
mod Systems
mod Virtual
