-- ===== src/Simulator.antt =====
-- The backtest's simulation of one position (src/triak_trade/backtesting/simulator.py): what a candle does
-- to it, how a part is closed, and the record of the closed trade; and the helpers on targets and sizes. The
-- histories of stops and prices that are kept for charts are left out. An exception of a strategy, which ends
-- the simulation, is `none`.
pub mod Position
pub mod Sizing
pub mod Candles
pub mod Entries
pub mod Updates
pub mod Updated
pub mod Same
pub mod Resolved
mod Tests
