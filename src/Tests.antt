-- ===== src/Tests.antt =====
-- The theorems at concrete machines.
mod Machine
mod Memory
mod Registers
mod Core
mod Words
mod Gdb
mod System
mod Traces
mod Session
mod Network
mod Programs
