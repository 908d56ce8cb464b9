-- ===== src/Bindings.antt =====
-- The bindings to the languages whose programs are profiled.
pub mod Python
pub mod Ruby
pub mod Lua
