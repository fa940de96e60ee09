-- ===== src/Decimal/Default.antt =====
-- Python's default context, with 10 ^ -10 as the smallest step: what runs and examples use.
use triak_trade.Base.{arith}
use triak_trade.Base.Int.{ℤ, pos}
use triak_trade.Decimal.Round.{Context}

abbrev pub python : Context
python = record { prec = 28; scale = 10; prec_pos = omega arith; scale_ge = omega arith }

-- One tenth, in units of 10 ^ -10, and one.
abbrev pub tenth : ℤ
tenth = pos 1_000_000_000

abbrev pub one : ℤ
one = pos 10_000_000_000
