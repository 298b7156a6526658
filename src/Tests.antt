-- ===== src/Tests.antt =====
-- The theorems at concrete inputs, and runs of the code.
mod Maps
mod Catalogs
mod Messages
mod Packets
mod TwoFormats
mod Attributes
mod Hellos
mod Values
mod Ages
mod Texts
mod Commands
mod Sequences
