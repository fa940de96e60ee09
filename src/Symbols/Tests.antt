-- ===== src/Symbols/Tests.antt =====
-- Runs of the symbol functions.
use triak_trade.Base.{◌≡◌, refl, Option, some, [], ◌∷◌, ◌++◌}
use triak_trade.Base.Text.{Str, codes, str_eq, upper, upper_code, starts_with}
use triak_trade.Symbols.Suffix.{ends_with, drop_last}
use triak_trade.Symbols.{
  usdt, is_upper_letter, is_alnum, compact_of, is_wrapped, unwrap, has_suffix, without_swap,
  without_double, usd_as_usdt, is_alpha, with_quote, canonical_of, canonical_market_symbol,
  futures_contract_symbol_candidates,
}
use triak_trade.Symbols.Contracts.{IsBase, contract-canonical_market_symbol}

abbrev base : Str
base = codes "BTC"

abbrev raw : Option Str
raw = some (codes "usdt/btc/usdt")

base-IsBase : IsBase base
unfolding compact_of is_alnum is_upper_letter upper upper_code starts_with ends_with str_eq
base-IsBase = record { compact = refl; nonempty = refl; unwrapped = refl; single = refl }

raw_canonical : canonical_market_symbol raw ≡ some (base ++ usdt)
unfolding canonical_market_symbol canonical_of compact_of is_alnum is_upper_letter upper upper_code
    starts_with ends_with str_eq is_wrapped unwrap drop_last has_suffix without_swap without_double
    usd_as_usdt is_alpha with_quote
raw_canonical = refl

contract-canonical_market_symbol_example :
    (contract : Str) × (futures_contract_symbol_candidates raw ≡ contract ∷ [])
    × (canonical_market_symbol (some contract) ≡ canonical_market_symbol raw)
contract-canonical_market_symbol_example =
    contract-canonical_market_symbol raw base base-IsBase raw_canonical

-- A base that ends with USD: its contract is that of another asset.
tusd_symbol : canonical_market_symbol (some (codes "TUSD/USD")) ≡ some (codes "TUSDUSDT")
unfolding canonical_market_symbol canonical_of compact_of is_alnum is_upper_letter upper upper_code
    starts_with ends_with str_eq is_wrapped unwrap drop_last has_suffix without_swap without_double
    usd_as_usdt is_alpha with_quote
tusd_symbol = refl

tusd_contract : canonical_market_symbol (some (codes "TUSD-SWAP-USDT")) ≡ some (codes "TUSDT")
unfolding canonical_market_symbol canonical_of compact_of is_alnum is_upper_letter upper upper_code
    starts_with ends_with str_eq is_wrapped unwrap drop_last has_suffix without_swap without_double
    usd_as_usdt is_alpha with_quote
tusd_contract = refl

-- A symbol that is wrapped twice loses one wrapper each time.
once : canonical_market_symbol (some (codes "USDTUSDTBTCUSDT")) ≡ some (codes "USDTBTCUSDT")
unfolding canonical_market_symbol canonical_of compact_of is_alnum is_upper_letter upper upper_code
    starts_with ends_with str_eq is_wrapped unwrap drop_last has_suffix without_swap without_double
    usd_as_usdt is_alpha with_quote
once = refl

twice : canonical_market_symbol (some (codes "USDTBTCUSDT")) ≡ some (codes "BTCUSDT")
unfolding canonical_market_symbol canonical_of compact_of is_alnum is_upper_letter upper upper_code
    starts_with ends_with str_eq is_wrapped unwrap drop_last has_suffix without_swap without_double
    usd_as_usdt is_alpha with_quote
twice = refl
