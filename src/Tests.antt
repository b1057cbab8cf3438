-- ===== src/Tests.antt =====
-- Runs of the modelled code on small inputs, and witnesses that the theorems' hypotheses can hold.
mod Platforms
mod Boundaries
mod Rollbacks
mod Sessions
mod Agents
mod Work
mod Tools
mod Loops
mod Triages
