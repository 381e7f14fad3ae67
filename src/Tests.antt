-- ===== src/Tests.antt =====
-- Tests of the models on concrete data, and an instance of each theorem that has hypotheses.
mod Files
mod Descriptors
mod Memory
mod Nested
mod Boot
mod Console
mod Devices
mod Terminals
mod Programs
mod User
