-- ===== src/Engine/Ids/Drawing.antt =====
-- Sequences of draws from the counters of crates/engine/src/ids.rs.
use hft_clob_core.Prelude.{
  ℕ, zero, suc, ◌+◌, ◌≤◌, ◌≡◌, ◌&&◌, List, [], ◌∷◌, Option, none, some, leb, if◌then◌else◌, arith,
}
use hft_clob_core.Domain.Consts.{u64_max}
use hft_clob_core.Engine.Ids.{CounterIdGenerator, resume, next_trade_id, next_engine_seq}

pub data Draw : Type 0 where
  trade seq : Draw

abbrev pub trades_in : List Draw → ℕ
trades_in [] = 0
trades_in (trade ∷ ds) = trades_in ds + 1
trades_in (seq ∷ ds) = trades_in ds

abbrev pub seqs_in : List Draw → ℕ
seqs_in [] = 0
seqs_in (trade ∷ ds) = seqs_in ds
seqs_in (seq ∷ ds) = seqs_in ds + 1

-- The trade ids and the sequence numbers that were drawn, and the counters after it.
abbrev pub Drawn : Type 0
Drawn = List ℕ × List ℕ × CounterIdGenerator

abbrev with_trade : ℕ → Option Drawn → Option Drawn
with_trade v none = none
with_trade v (some (ids, seqs, g)) = some (v ∷ ids, seqs, g)

abbrev with_seq : ℕ → Option Drawn → Option Drawn
with_seq v none = none
with_seq v (some (ids, seqs, g)) = some (ids, v ∷ seqs, g)

-- The draws one after the other, in whatever order; `none` if one of them panics.
unfoldable pub draw_all : List Draw → CounterIdGenerator → Option Drawn
draw_all [] g = some ([], [], g)
draw_all (trade ∷ ds) g = elim (next_trade_id g) [
  | none ↦ none
  | some (v, g') ↦ with_trade v (draw_all ds g')
]
draw_all (seq ∷ ds) g = elim (next_engine_seq g) [
  | none ↦ none
  | some (v, g') ↦ with_seq v (draw_all ds g')
]

-- So many numbers from `n` on.
abbrev pub count_up : ℕ → ℕ → List ℕ
count_up n zero = []
count_up n (suc k) = n ∷ count_up (n + 1) k

-- From counters that hold u64 values, draws in any order panic exactly if a counter would have to
-- pass the last u64; otherwise each counter issues the consecutive numbers from its value on,
-- whatever is drawn from the other in between, and stands behind the last of them.
pub draw_all_lem :
    (ds : List Draw) (t s : ℕ)
    → t ≤ u64_max
    → s ≤ u64_max
    → draw_all ds (resume t s) ≡ (
        if leb (t + trades_in ds) u64_max && leb (s + seqs_in ds) u64_max
        then some (
          count_up t (trades_in ds),
          count_up s (seqs_in ds),
          resume (t + trades_in ds) (s + seqs_in ds),
        )
        else none)
unfolding draw_all resume next_trade_id next_engine_seq
draw_all_lem [] t s ht hs = ground arith
draw_all_lem (trade ∷ ds) t s ht hs = ground (arith, draw_all_lem ds (t + 1) s)
draw_all_lem (seq ∷ ds) t s ht hs = ground (arith, draw_all_lem ds t (s + 1))
