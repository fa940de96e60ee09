-- ===== src/LiveTrading.antt =====
-- Demo and live trading (src/triak_trade/live_trading).
pub mod Models
pub mod History
pub mod Coordinator
pub mod Positions
