-- ===== src/Lib.antt =====
-- A verification library for the trading core of Triak Trade: what decides whether a signal becomes a
-- position on a shared exchange account, how large the position is, where its stop stands and how its
-- targets share it. Paths are from the repository's root.
--
-- The parts of the program and how they interact. A Telegram message becomes a parsed signal; the
-- validator normalizes it and lets it through or not; the position manager sizes a trade with the
-- stop-loss calculations; the engine asks the account coordinator whether the trade may be opened,
-- and opens, nets or drops it; the take-profit planner splits the position into exchange orders. Of
-- these the library models the parts below.
--
-- - Base: shared helpers. Boolean tests and lists over the native numbers, integers, texts as lists of
--   code points, Python dicts as association lists in insertion order, and results of code that
--   raises.
-- - Decimal: Python's decimal arithmetic. A number is an integer number of units of 10 ^ -scale; an
--   operation rounds the exact result once, half to even, to `prec` digits. Both are fields of a
--   Context, which every theorem is about; Decimal.Default is Python's 28 digits with the step
--   10 ^ -10, for runs.
-- - Domain: the enumerations of src/triak_trade/domain/enums.py, and of models.py the parsed signal, the
--   signal state and the candle with their validators (Records).
-- - TakeProfit: src/triak_trade/live_trading/take_profit_planner.py. `allocate` is the body of the loop
--   of plan_maximum_take_profit_orders, `allocate_all` the loop, by recursion on the candidates. The
--   recursion of the proofs, `shares`, is the same loop without prices.
-- - StopLoss: src/triak_trade/risk/stop_loss.py. `move_within` is the loop over range(4), with the
--   number of rounds left as its fuel; the source's loop has the same bound.
-- - Parsing: src/triak_trade/parsing/side_inference.py (Sides) and validator.py (Validator).
-- - Simulator: src/triak_trade/backtesting/simulator.py, as far as it is about one position: Position has the
--   closing of a part, Candles the candles, Entries the entry of a signal, Updates the update by a message,
--   Sizing the helpers. The candles are those of the position's symbol.
-- - Symbols: src/triak_trade/core/symbols.py.
-- - Scoring: src/triak_trade/backtesting/scoring.py, with the checks of ChannelMetrics.
-- - Strategies: src/triak_trade/backtesting/strategies. TradeStrategy is the protocol of base.py, with
--   operations that may raise; Default is default_risk.py and Trailing is trailing_tp.py.
-- - LiveTrading.Positions: src/triak_trade/live_trading/position_manager.py. Targets and Money have its
--   helpers, Sizing compute_position_sizing and create_trade, Updates what a message changes, Closing
--   the hits and the closes, Protection the stop and the targets of a trade whose entry has filled.
--   An operation takes the trade and the message and returns them as they are afterwards; Lifecycle
--   has the sequences of such calls. A sizing feeds create_trade, the calculations of StopLoss
--   decide on every stop, and a strategy is a parameter.
-- - LiveTrading.Models: src/triak_trade/live_trading/models.py, the trade; LiveTrading.History is about
--   its message history.
-- - LiveTrading.Coordinator: src/triak_trade/live_trading/account_coordinator.py. A method that writes
--   is a function from the coordinator to the coordinator, under the method's name; a history of the
--   account is a list of such calls (Methods). coordinate_open also writes the trade and runs the
--   engine's close callback, which is a parameter; what was written before an error stays.
--
-- Bounds and fuel. Counting the digits of a number (Decimal.Round) takes fuel, the number itself,
-- which is enough since every round multiplies by ten. No other recursion has fuel, but for the loop of
-- the stop.
--
-- Not modelled. NaN, infinities and exponent limits of decimals; case mapping outside ASCII; the texts
-- of notes and of some errors; locks and asyncio (a method is atomic, as the source's lock makes it,
-- and coordinate_open runs under the account's guard); from_settings. The engine, the exchange
-- clients, Telegram, the database, the dashboard, the language-model gateway, the message regular
-- expressions, the simulator's loops over events and over several positions, its snapshots, and the
-- rest of the backtest are left out.
pub mod Base
pub mod Decimal
pub mod Domain
pub mod TakeProfit
pub mod StopLoss
pub mod Parsing
pub mod LiveTrading
pub mod Scoring
pub mod Strategies
pub mod Simulator
pub mod Symbols
