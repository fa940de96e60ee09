-- ===== src/Symbols.antt =====
-- The canonical form of market symbols (src/triak_trade/core/symbols.py). Only ASCII letters and digits are
-- left of a symbol before it is put in upper case, and so nothing for `strip`.
pub mod Suffix
pub mod Contracts
mod Tests
use triak_trade.Base.{
  ℕ, ◌+◌, ◌-◌, ltb, leb, Bool, true, false, not, ◌&&◌, ◌||◌, if◌then◌else◌, Option, none, some,
  List, [], ◌∷◌, ◌++◌, any, length, drop, keep,
}
use triak_trade.Base.Text.{Str, codes, str_eq, str_in, upper, starts_with}
use triak_trade.Symbols.Suffix.{ends_with, drop_last}

abbrev pub usdt : Str
usdt = codes "USDT"

abbrev pub usdc : Str
usdc = codes "USDC"

abbrev pub usd : Str
usd = codes "USD"

abbrev pub known_quotes : List Str
known_quotes = usdt ∷ usdc ∷ codes "BUSD" ∷ usd ∷ codes "BTC" ∷ codes "ETH" ∷ []

unfoldable pub is_upper_letter : ℕ → Bool
is_upper_letter c = leb b'A' c && leb c b'Z'

unfoldable pub is_alnum : ℕ → Bool
is_alnum c = is_upper_letter c || ((leb b'a' c && leb c b'z') || (leb b'0' c && leb c b'9'))

-- `re.sub(r"[^A-Za-z0-9]", "", raw).upper()`
unfoldable pub compact_of : Str → Str
compact_of raw = upper (keep is_alnum raw)

-- The quote asset on both sides.
unfoldable pub is_wrapped : Str → Str → Bool
is_wrapped quote s =
    starts_with s quote && (ends_with quote s && ltb (length quote + length quote) (length s))

unfoldable pub unwrap : Str → Str
unwrap s = if is_wrapped usdt s then drop 4 s else if is_wrapped usdc s then drop 4 s else s

-- Longer than a suffix that it has.
unfoldable pub has_suffix : Str → Str → Bool
has_suffix suffix s = ends_with suffix s && ltb (length suffix) (length s)

unfoldable pub without_swap : Str → Str
without_swap s =
    if has_suffix (codes "SWAP" ++ usdt) s
    then drop_last 8 s ++ usdt
    else if has_suffix (codes "SWAP" ++ usdc) s
    then drop_last 8 s ++ usdc
    else s

unfoldable pub without_double : Str → Str
without_double s = if has_suffix (usd ++ usdt) s then drop_last 7 s ++ usdt else s

unfoldable pub usd_as_usdt : Str → Str
usd_as_usdt s =
    if ends_with usd s && (not (ends_with usdt s) && ltb 3 (length s))
    then drop_last 3 s ++ usdt
    else s

-- `compact.isalpha()`, of a nonempty text of upper case letters and digits.
unfoldable pub is_alpha : Str → Bool
is_alpha [] = true
is_alpha (c ∷ s) = is_upper_letter c && is_alpha s

unfoldable pub with_quote : Str → Str
with_quote s =
    if any (λ quote. has_suffix quote s) known_quotes
    then s
    else if is_alpha s && leb (length s) 10
    then s ++ usdt
    else s

unfoldable pub canonical_of : Str → Option Str
canonical_of [] = none
canonical_of (c ∷ s) =
    some (with_quote (usd_as_usdt (without_double (without_swap (unwrap (c ∷ s))))))

unfoldable pub canonical_market_symbol : Option Str → Option Str
canonical_market_symbol none = none
canonical_market_symbol (some raw) = canonical_of (compact_of raw)

-- Both have a canonical form, and it is the same; a canonical form is never empty.
unfoldable pub same_canonical : Option Str → Option Str → Bool
same_canonical (some a) (some b) = str_eq a b
same_canonical _ _ = false

unfoldable pub same_market_symbol : Option Str → Option Str → Bool
same_market_symbol left right =
    same_canonical (canonical_market_symbol left) (canonical_market_symbol right)

-- The contract of a base asset in a quote asset, if the symbol has one.
unfoldable pub contract_in : Str → Str → List Str
contract_in quote s =
    if ends_with quote s && ltb 4 (length s)
    then (drop_last 4 s ++ (codes "-SWAP-" ++ quote)) ∷ []
    else []

unfoldable pub contracts_of : Option Str → List Str
contracts_of none = []
contracts_of (some s) = contract_in usdt s ++ contract_in usdc s

unfoldable pub futures_contract_symbol_candidates : Option Str → List Str
futures_contract_symbol_candidates raw = contracts_of (canonical_market_symbol raw)

unfoldable pub futures_index_symbol_candidates : Option Str → List Str
futures_index_symbol_candidates raw = elim (canonical_market_symbol raw) [
  | none ↦ []
  | some s ↦ s ∷ []
]

-- The candidates that are not there yet are added.
unfoldable pub add_many : List Str → List Str → List Str
add_many candidates [] = candidates
add_many candidates (v ∷ values) =
    add_many (if str_in v candidates then candidates else candidates ++ v ∷ []) values

unfoldable pub market_symbol_candidates : Option Str → List Str
market_symbol_candidates raw =
    add_many (add_many [] (futures_contract_symbol_candidates raw))
      (futures_index_symbol_candidates raw)

unfoldable pub first_candidate : List Str → Option Str
first_candidate [] = none
first_candidate (v ∷ values) = some v

unfoldable pub normalize_market_symbol : Option Str → Option Str
normalize_market_symbol raw = first_candidate (market_symbol_candidates raw)
