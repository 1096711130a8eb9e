-- ===== src/Tests.antt =====
-- Concrete runs of the model's functions, and the theorems applied to concrete states.
mod Samples
mod Kernel
mod Game
mod Rules
mod Devices
