-- ===== src/LiveTrading/Coordinator.antt =====
-- The account coordinator (src/triak_trade/live_trading/account_coordinator.py), which maps logical
-- trades to the positions of one exchange account. `Defs` has its state, `Claims`,
-- `Registry`, `Owners` and `Queries` the methods that keep and read the legs, the owners of orders and
-- fills and the blocked buckets, `Risk` the caps and the search for
-- duplicates, `Open` the decision on a new trade, `Restore` the start from the store. The locks make
-- each method atomic; what may run between two methods is a sequence of them.
pub mod Defs
pub mod Claims
pub mod Registry
pub mod Owners
pub mod Queries
pub mod Risk
pub mod Select
pub mod Open
pub mod Restore
pub mod Methods
pub mod Fills
pub mod Orders
pub mod Blocks
pub mod Persist
pub mod Decisions
pub mod Capped
pub mod Duplicates
mod Tests
