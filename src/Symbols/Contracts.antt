-- ===== src/Symbols/Contracts.antt =====
-- The contract of a symbol has the symbol as its canonical form.
use triak_trade.Base.{
  ◌+◌, ◌≡◌, refl, sym, ap, ◌∙◌, subst, ltb, true, false, Bool-cases, inl, inr, Option, some, [],
  ◌∷◌, ◌++◌, length, length-append, arith,
}
use triak_trade.Base.Text.{Str, codes, str_eq, upper, upper_code, starts_with}
use triak_trade.Symbols.Suffix.{ends_with, ends_with-append, drop_last-append, ends_with-same}
use triak_trade.Symbols.{
  usdt, usdc, usd, is_alnum, is_upper_letter, compact_of, is_wrapped, unwrap, has_suffix,
  without_swap, without_double, usd_as_usdt, with_quote, canonical_of, canonical_market_symbol,
  contract_in, contracts_of, futures_contract_symbol_candidates,
}

abbrev swap_usdt : Str
swap_usdt = codes "SWAP" ++ usdt

-- A base asset of upper-case letters and digits, not empty, whose contract does not begin with USDT, and which
-- does not end with USD. The last condition is needed: TUSD-SWAP-USDT has the canonical form TUSDT, not TUSDUSDT.
pub record IsBase (base : Str) : Type 0 where
  pub compact : compact_of base ≡ base
  pub nonempty : ltb 0 (length base) ≡ true
  pub unwrapped : starts_with (base ++ swap_usdt) usdt ≡ false
  pub single : ends_with (usd ++ usdt) (base ++ usdt) ≡ false

compact_of-append : (xs ys : Str) → compact_of (xs ++ ys) ≡ compact_of xs ++ compact_of ys
unfolding compact_of upper
compact_of-append [] ys = refl
compact_of-append (x ∷ xs) ys = elim (Bool-cases (is_alnum x)) [
  | inl kept ↦ rw kept (ap (λ (zs : Str). upper_code x ∷ zs) (compact_of-append xs ys))
  | inr dropped ↦ rw dropped (compact_of-append xs ys)
]

compact_contract : compact_of (codes "-SWAP-" ++ usdt) ≡ swap_usdt
unfolding compact_of is_alnum is_upper_letter upper
compact_contract = refl

length-usdt : (base : Str) → length (base ++ usdt) ≡ length base + 4
length-usdt base = length-append base usdt

append_assoc : (xs ys zs : Str) → (xs ++ ys) ++ zs ≡ xs ++ (ys ++ zs)
append_assoc [] ys zs = refl
append_assoc (x ∷ xs) ys zs = ap (λ (ws : Str). x ∷ ws) (append_assoc xs ys zs)

not_usdc : (xs : Str) → ends_with usdc (xs ++ usdt) ≡ false
unfolding str_eq
not_usdc xs = ends_with-same xs usdt usdc refl

usdc_contract : (base : Str) → ends_with usdc (base ++ swap_usdt) ≡ false
usdc_contract base =
    subst (λ (s : Str). ends_with usdc s ≡ false) (append_assoc base (codes "SWAP") usdt)
      (not_usdc (base ++ codes "SWAP"))

unwrap_contract : (base : Str) → IsBase base → unwrap (base ++ swap_usdt) ≡ base ++ swap_usdt
unfolding unwrap is_wrapped
unwrap_contract base b = rw (b.unwrapped, usdc_contract base) (ground arith)

without_swap_contract : (base : Str) → IsBase base → without_swap (base ++ swap_usdt) ≡ base ++ usdt
unfolding without_swap has_suffix
without_swap_contract base b =
    let longer : ltb 8 (length (base ++ swap_usdt)) ≡ true =
      ground (arith, b.nonempty, length-append base swap_usdt) in
    rw (ends_with-append base swap_usdt, longer, drop_last-append base swap_usdt) refl

without_double_same : (base : Str) → IsBase base → without_double (base ++ usdt) ≡ base ++ usdt
unfolding without_double has_suffix
without_double_same base b = rw b.single refl

usd_as_usdt_same : (base : Str) → usd_as_usdt (base ++ usdt) ≡ base ++ usdt
unfolding usd_as_usdt
usd_as_usdt_same base = rw (ends_with-append base usdt) (ground arith)

with_quote_same : (base : Str) → IsBase base → with_quote (base ++ usdt) ≡ base ++ usdt
unfolding with_quote has_suffix
with_quote_same base b =
    let longer : ltb 4 (length (base ++ usdt)) ≡ true =
      ground (arith, b.nonempty, length-usdt base) in
    rw (ends_with-append base usdt, longer) refl

canonical_of_contract :
    (base : Str) → IsBase base → canonical_of (base ++ swap_usdt) ≡ some (base ++ usdt)
unfolding canonical_of
canonical_of_contract [] b = cc (b.nonempty)
canonical_of_contract (x ∷ xs) b = ap some (
    ap (λ (s : Str). with_quote (usd_as_usdt (without_double (without_swap s))))
      (unwrap_contract (x ∷ xs) b)
    ∙ ap (λ (s : Str). with_quote (usd_as_usdt (without_double s)))
        (without_swap_contract (x ∷ xs) b)
    ∙ ap (λ (s : Str). with_quote (usd_as_usdt s)) (without_double_same (x ∷ xs) b)
    ∙ ap with_quote (usd_as_usdt_same (x ∷ xs))
    ∙ with_quote_same (x ∷ xs) b)

contract_canonical :
    (base : Str)
    → IsBase base
    → canonical_market_symbol (some (base ++ (codes "-SWAP-" ++ usdt))) ≡ some (base ++ usdt)
unfolding canonical_market_symbol
contract_canonical base b =
    let compact : compact_of (base ++ (codes "-SWAP-" ++ usdt)) ≡ base ++ swap_usdt =
      compact_of-append base (codes "-SWAP-" ++ usdt)
      ∙ ap (λ (s : Str). s ++ compact_of (codes "-SWAP-" ++ usdt)) b.compact
      ∙ ap (λ (s : Str). base ++ s) compact_contract in
    rw compact (canonical_of_contract base b)

contracts_of_base :
    (base : Str)
    → IsBase base
    → contracts_of (some (base ++ usdt)) ≡ (base ++ (codes "-SWAP-" ++ usdt)) ∷ []
unfolding contracts_of contract_in
contracts_of_base base b =
    let longer : ltb 4 (length (base ++ usdt)) ≡ true =
      ground (arith, b.nonempty, length-usdt base) in
    rw (ends_with-append base usdt, longer, drop_last-append base usdt, not_usdc base) refl

-- Where the canonical form of a symbol is a base asset in USDT, and the base, not empty, is of upper-case letters
-- and digits, does not begin with USDT and does not end with USD: the symbol has exactly one futures contract, and
-- the canonical form of that contract is that of the symbol again. Of a base
-- that ends with USD, such as TUSD, nothing is said.
pub contract-canonical_market_symbol :
    (raw : Option Str) (base : Str)
    → IsBase base
    → canonical_market_symbol raw ≡ some (base ++ usdt)
    → (contract : Str) × (futures_contract_symbol_candidates raw ≡ contract ∷ [])
      × (canonical_market_symbol (some contract) ≡ canonical_market_symbol raw)
unfolding futures_contract_symbol_candidates
contract-canonical_market_symbol raw base b h = (
  base ++ (codes "-SWAP-" ++ usdt),
  ap contracts_of h ∙ contracts_of_base base b,
  contract_canonical base b ∙ sym h,
)
