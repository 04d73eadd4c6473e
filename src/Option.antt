-- ===== src/Option.antt =====
-- src/Option.cxx and include/wrutil/Option.h, the command line: tables of options, Option::prefix,
-- Option::parse and Option::parseSubOptions. Texts are lists of bytes.
pub mod Table
pub mod Setup
pub mod Choose
pub mod Parse
pub mod Lookup
pub mod Progress
pub mod Shortest
pub mod SubOptions
pub mod SubProgress
mod Runs
