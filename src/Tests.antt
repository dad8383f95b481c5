-- ===== src/Tests.antt =====
-- Tests of the models, and the theorems at concrete inputs.
mod Store
mod Entities
mod Fields
mod Bank
mod Edits
mod Stream
mod Threads
mod Latches
mod Sorting
mod Layers
