-- ===== src/ProgramOptions.antt =====
-- utils/program_options: `IniOptions` is ini_parser.cpp, which turns the pairs of an INI file into
-- options, `LogSettings` is log.cpp, which picks the log settings among the unrecognised ones, and
-- the others are the validators of endpoints, addresses and durations.
pub mod IniOptions
pub mod Order
pub mod Prefixes
pub mod Allowing
pub mod LogSettings
pub mod Validators
pub mod Net
pub mod Addresses
pub mod Chrono
pub mod ConsoleSink
mod Tests
mod ValidatorTests
