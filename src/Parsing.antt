-- ===== src/Parsing.antt =====
-- Side inference and validation of parsed signals (src/triak_trade/parsing).
pub mod Sides
pub mod Evidence
pub mod Validator
pub mod Normal
pub mod Gate
pub mod Ranges
mod Tests
