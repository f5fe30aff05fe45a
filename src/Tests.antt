-- ===== src/Tests.antt =====
-- Runs of the modelled code at concrete inputs, and the theorems applied there.
mod Uuht
mod V2f
mod Text
mod Arena
mod Tokenise
mod Sht
mod Renamer
mod Aarch64
mod Alloc
mod EhFrame
mod Erw
