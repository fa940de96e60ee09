-- ===== src/LiveTrading/Positions.antt =====
-- Position sizing, the updates of a trade's protection, and its profit and loss
-- (src/triak_trade/live_trading/position_manager.py). The operations take the trade and return it as it
-- is afterwards. Log events are left out. The texts of the notes depend on how Python shows a decimal, so
-- a note is a value here, and the operations take the function that makes its text. Readings of the
-- clock are arguments.
pub mod Targets
pub mod Money
pub mod Sizing
pub mod Updates
pub mod Closing
pub mod Protection
pub mod Valid
pub mod Floor
pub mod Risk
pub mod Sized
pub mod Rebase
pub mod Lifecycle
pub mod Settled
pub mod Stops
pub mod Triggers
pub mod Parts
pub mod Closed
mod Tests
