-- ===== src/Ini.antt =====
-- utils/ini_parser/ini_parser.cpp, an INI reader with quoting, sections and #include: `Error` has
-- its exceptions, `Value` trims and unquotes, `Token` is the tokenizer, `Parser` the class
-- ini_parser and the two `parse` functions.
pub mod Error
pub mod Value
pub mod Token
pub mod Parser
mod Tests
