-- ===== src/Engine/Clocks.antt =====
-- The replay clock of crates/engine/src/clock.rs, which reads the same until it is set.
use hft_clob_core.Prelude.Int.{ℤ}
use hft_clob_core.Engine.{Clock}

pub record StubClock : Type 0 where
  pub current : ℤ

-- `StubClock::new`
unfoldable pub new : ℤ → StubClock
new nanos = record { current = nanos }

unfoldable pub set : ℤ → StubClock → StubClock
set nanos c = record c { current = nanos }

instance abbrev pub stub_clock : Clock StubClock
stub_clock = record { now = λ c. (c.current, c) }
