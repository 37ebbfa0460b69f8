-- ===== src/Domain/Counter.antt =====
-- crates/domain/src/types/engine_seq.rs and trade_id.rs: counters that refuse to wrap.
use hft_clob_core.Prelude.{ℕ, ◌+◌, Result, ok, err, ltb, if◌then◌else◌}
use hft_clob_core.Domain.Consts.{u64_max}

abbrev pub EngineSeq : Type 0
EngineSeq = ℕ

abbrev pub TradeId : Type 0
TradeId = ℕ

pub data CounterError : Type 0 where
  overflow : CounterError

-- `EngineSeq::next`, and `TradeId::next` alike.
unfoldable pub next : ℕ → Result CounterError ℕ
next v = if ltb v u64_max then ok (v + 1) else err overflow
