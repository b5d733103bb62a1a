-- ===== src/CommandLine.antt =====
-- `CommandLine` and `CommandLineTypes` (buildbox-common/buildboxcommon/buildboxcommon_commandline.h
-- and .cpp, buildboxcommon_commandlinetypes.h and .cpp), as they are without C++17, for which no part
-- of the build asks. What is written to `out` is left out.
pub mod Types
pub mod Values
pub mod Options
pub mod Parse
pub mod Getters
pub mod Channel
pub mod Entries
pub mod Kept
pub mod Stable
pub mod Grown
pub mod Positionals
pub mod Complete
pub mod Forms
pub mod Arrays
pub mod First
pub mod Configure
pub mod Bindings
mod Tests
