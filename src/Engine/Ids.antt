-- ===== src/Engine/Ids.antt =====
-- crates/engine/src/ids.rs: the counters of the engine, which panic rather than wrap.
pub mod Drawing
use hft_clob_core.Prelude.{ℕ, ◌+◌, ◌<◌, ◌≡◌, refl, Option, none, some, ltb, lt→ltb, if◌then◌else◌}
use hft_clob_core.Domain.Consts.{u64_max}
use hft_clob_core.Matching.Types.{IdGenerator}

pub record CounterIdGenerator : Type 0 where
  pub next_trade : ℕ
  pub next_seq : ℕ

-- `CounterIdGenerator::new`
abbrev pub new : CounterIdGenerator
new = record { next_trade = 1; next_seq = 1 }

unfoldable pub resume : ℕ → ℕ → CounterIdGenerator
resume next_trade_id next_engine_seq = record {
  next_trade = next_trade_id;
  next_seq = next_engine_seq;
}

-- `none` is the panic of `expect`.
unfoldable pub next_trade_id : CounterIdGenerator → Option (ℕ × CounterIdGenerator)
next_trade_id g =
    if ltb g.next_trade u64_max
    then some (g.next_trade, record g { next_trade = g.next_trade + 1 })
    else none

unfoldable pub next_engine_seq : CounterIdGenerator → Option (ℕ × CounterIdGenerator)
next_engine_seq g =
    if ltb g.next_seq u64_max
    then some (g.next_seq, record g { next_seq = g.next_seq + 1 })
    else none

-- A generator for sessions in which no counter overflows. It is no translation of the code: its
-- numbers have no bound, where `next_trade_id` and `next_engine_seq` above panic.
instance abbrev pub counters : IdGenerator CounterIdGenerator
counters = record {
  next_trade_id = λ g. (g.next_trade, record g { next_trade = g.next_trade + 1 });
  next_engine_seq = λ g. (g.next_seq, record g { next_seq = g.next_seq + 1 });
}

-- A generator of strictly increasing sequence numbers: `upcoming` is the next one.
pub record IsSequential {G : Type 0} (gen : IdGenerator G) : Type 0 where
  pub upcoming : G → ℕ
  pub issues : (g : G) → (gen.next_engine_seq g).0 ≡ upcoming g
  pub advances : (g : G) → upcoming (gen.next_engine_seq g).1 ≡ upcoming g + 1
  pub independent : (g : G) → upcoming (gen.next_trade_id g).1 ≡ upcoming g

-- The two counters are sequential and independent of each other, and as long as neither has
-- reached the last u64, they are what the checked operations return.
pub counters_lem :
    IsSequential counters
    × ((g : CounterIdGenerator)
        → g.next_trade < u64_max
        → next_trade_id g ≡ some (counters.next_trade_id g))
    × ((g : CounterIdGenerator)
        → g.next_seq < u64_max
        → next_engine_seq g ≡ some (counters.next_engine_seq g))
unfolding next_trade_id next_engine_seq
counters_lem = (
  record {
    upcoming = λ g. g.next_seq;
    issues = λ g. refl;
    advances = λ g. refl;
    independent = λ g. refl;
  },
  λ g h. rw (lt→ltb g.next_trade u64_max h) refl,
  λ g h. rw (lt→ltb g.next_seq u64_max h) refl,
)
