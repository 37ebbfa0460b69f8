-- ===== src/Domain/Codes.antt =====
-- The byte codes of the enumerations of crates/domain/src/types, together.
use hft_clob_core.Domain.Code.{IsCode}
use hft_clob_core.Domain.Side
use hft_clob_core.Domain.Tif
use hft_clob_core.Domain.OrderType
use hft_clob_core.Domain.ExecState
use hft_clob_core.Domain.RejectReason
use hft_clob_core.Domain.CancelReason

-- For each of the six enumerations that messages carry, `try_from` reads every value back from the
-- byte that `as_u8` gives it, accepts no other byte, and the code fits a byte.
pub codes_read_back :
    IsCode Side.as_u8 Side.try_from
    × IsCode Tif.as_u8 Tif.try_from
    × IsCode OrderType.as_u8 OrderType.try_from
    × IsCode ExecState.as_u8 ExecState.try_from
    × IsCode RejectReason.as_u8 RejectReason.try_from
    × IsCode CancelReason.as_u8 CancelReason.try_from
codes_read_back = (
  Side.Side-IsCode, Tif.Tif-IsCode, OrderType.OrderType-IsCode, ExecState.ExecState-IsCode,
  RejectReason.RejectReason-IsCode, CancelReason.CancelReason-IsCode,
)
