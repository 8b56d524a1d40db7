-- ===== src/Tests.antt =====
-- Runs of the model on small inputs, and each theorem with hypotheses at such an input.
mod Samples
mod Bounds
mod Faults
mod Machine
mod Blocks
mod Calls
mod Links
mod Rings
mod Runs
mod Coverage
mod Loading
mod Stages
mod Copies
