-- ===== src/Decimal.antt =====
-- `decimal.Decimal` of the Python standard library, as the modelled modules use it. A finite value
-- is an integer number of units of 10 ^ -scale. An operation computes the exact rational result and
-- rounds it once, half to even, to `prec` significant digits, but to no finer than one unit. Python's
-- default context has 28 digits and, as its smallest step, 10 ^ -1000026; a smaller `scale` is the
-- same arithmetic with a larger smallest step. Comparisons, `min`, `max` and `abs` are exact. Not
-- modelled: NaN, infinities, the upper end of the exponent, `InvalidOperation` of a `quantize` whose
-- result has too many digits, and the digits that `str` shows beyond the value.
pub mod Round
pub mod Monotone
pub mod Ops
pub mod Laws
pub mod Exact
pub mod Default
pub use Round.{Context}
unfoldable pub use Ops.*
pub use Laws.*
pub use Exact.*
