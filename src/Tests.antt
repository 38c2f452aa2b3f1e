-- ===== src/Tests.antt =====
-- Test data, runs on concrete inputs, and each theorem at an input that exercises the code.
mod Texts
mod Numeric
mod Heap
mod Activation
mod Operations
mod Machine
mod Words
mod Interpreter
mod Collector
mod Compiler
mod Sources
