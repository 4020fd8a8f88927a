-- ===== src/Tests.antt =====
-- Runs at concrete inputs: the theorems with hypotheses, applied where their hypotheses hold.
mod Fixtures
mod Orders
mod Services
mod Front
mod Practicals
mod Starts
mod Reach
mod Sequences
mod Sessions
mod Quantities
mod Menus
mod Monolith
mod Handlers
