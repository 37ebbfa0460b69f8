-- ===== src/Tests/Sessions.antt =====
-- Runs of the engine, and its theorems at concrete inputs.
use hft_clob_core.Prelude.{
  ℕ, Bool, Option, ◌≡◌, refl, List, [], ◌∷◌, ◌++◌, map, true, none, some, All, arith, ◌+◌, length,
  if◌then◌else◌,
}
use hft_clob_core.Prelude.Int.{pos}
use hft_clob_core.Collections.BTreeSet
use hft_clob_core.Domain.Side
use hft_clob_core.Domain.Side.{Side, bid, ask}
use hft_clob_core.Domain.Tif.{gtc}
use hft_clob_core.Domain.OrderType.{limit}
use hft_clob_core.Domain.OrderId.{OrderId}
use hft_clob_core.Domain.RejectReason.{RejectReason, kill_switched}
use hft_clob_core.Matching.Types.{OrderMeta}
use hft_clob_core.Matching.Queue.{PlOrder}
use hft_clob_core.Matching.Book.{qty_at_level}
use hft_clob_core.Matching.Consistency.{is_owned}
use hft_clob_core.Matching.Consistency.MassCancelling.{ids_of_account}
use hft_clob_core.Matching.Consistency.MassCancelling.Queues.{without}
use hft_clob_core.Matching.View.{queue_at}
use hft_clob_core.Domain.Price.{Price}
use hft_clob_core.Risk
use hft_clob_core.Risk.Limits.{IsWithinCaps}
use hft_clob_core.Wire.Inbound.{
  Inbound, NewOrder, CancelReplace, MassCancel, KillSwitchSet, halt, new_order, cancel_replace,
  kill_switch_set,
}
use hft_clob_core.Wire.Outbound.{Outbound}
use hft_clob_core.Engine
use hft_clob_core.Engine.{Engine}
use hft_clob_core.Engine.Ids
use hft_clob_core.Engine.Ids.{CounterIdGenerator, IsSequential, counters, counters_lem}
use hft_clob_core.Engine.Clocks
use hft_clob_core.Engine.Clocks.{StubClock, stub_clock}
use hft_clob_core.Engine.Reports
use hft_clob_core.Engine.Fills
use hft_clob_core.Engine.Entry
use hft_clob_core.Engine.Changes
use hft_clob_core.Engine.Changes.{handle_mass_cancel}
use hft_clob_core.Engine.Deltas
use hft_clob_core.Engine.Step
use hft_clob_core.Engine.Step.{step, run}
use hft_clob_core.Engine.Effects.{IsNumbered, engine_seq_of}
use hft_clob_core.Engine.Effects.Steps.{HasLots, run-IsNumbered}
use hft_clob_core.Engine.Mirror.{Mirror, apply_all}
use hft_clob_core.Engine.Mirror.Following.{Shows, mirror_follows}
use hft_clob_core.Engine.Rejecting.{IsRejected, halted_step, foreign-IsRejected}
use hft_clob_core.Engine.Soundness.{IsEngine, new-IsEngine, run-IsEngine, run-IsWithinCaps}
use hft_clob_core.Engine.Answers.{has_report}
use hft_clob_core.Engine.Answers.Stepping.{step_answers}
use hft_clob_core.Engine.MassAnswers.{mass_cancelled, mass_cancel_reports}
use hft_clob_core.Tests.Fifo.{fifo}
use hft_clob_core.Tests.Books.{fifo_law, listed}
use hft_clob_core.Tests.Runs.{program}

-- What a run has to see through.
unfoldable engine_program : Unit {0}
unfolding Engine.new Engine.session_of Engine.with_session Engine.clear_buffers Engine.drop_entry
    Engine.emit Clocks.new Reports.emit_rejected Reports.emit_exec_report_accepted
    Reports.emit_exec_report_cancelled Reports.emit_exec_report_replaced
    Reports.emit_exec_report_fill Reports.emit_trade_print_for_fill Reports.emit_l2_delta
    Reports.qty_at Reports.top_of Reports.emit_book_update_top Fills.maker_leaves Fills.taker_leaves
    Fills.reduced_entry Fills.reduce_entry Fills.set_last_trade Fills.settle_maker Fills.report_fill
    Fills.emit_fills Fills.emit_fills_for_taker Fills.emit_stp Fills.emit_stp_cancels Entry.guarded
    Entry.aggressive_order Entry.resting_order Entry.entry_of Entry.finish_resting
    Entry.rest_counted Entry.rest_taker Entry.route_rest Entry.dispose_taker Entry.after_match
    Entry.match_new_order Entry.handle_new_order Changes.handle_kill_switch Deltas.tagged
    Deltas.same_key Deltas.key_before Deltas.capture_levels Deltas.capture_pre_step_levels
    Deltas.capture_post_step_levels Deltas.diff_round Deltas.diff Deltas.emit_l2_deltas
    Step.with_book_changes Step.dispatch Step.step Step.run Risk.set_kill_switch Risk.on_fill
    Risk.one_more Risk.account_of Risk.on_order_resting Risk.on_order_removed Risk.notional_of
    Risk.check_price_band Risk.check_account_limits Risk.effective_price Risk.check_new_order
    Side.as_u8 engine_seq_of
engine_program = tt

abbrev TestEngine : Type 0
TestEngine = Engine (List PlOrder) CounterIdGenerator StubClock

abbrev order : ℕ → ℕ → Side → ℕ → ℕ → NewOrder
order i account side price qty = record {
  client_ts = pos 0;
  order_id = i;
  account_id = account;
  side = side;
  order_type = limit;
  tif = gtc;
  price = some price;
  qty = qty;
}

-- Two offers of account 1, and a bid of account 2 that trades with the first.
abbrev commands : List Inbound
commands =
    new_order (order 1 1 ask 100 5)
    ∷ new_order (order 2 1 ask 101 7)
    ∷ new_order (order 3 2 bid 100 3)
    ∷ []

commands-HasLots : All HasLots commands
commands-HasLots = (omega arith, (omega arith, (omega arith, tt)))

unfoldable start : TestEngine
start = Engine.new (Clocks.new (pos 1_000)) Ids.new

start-IsEngine : IsEngine start
unfolding start
start-IsEngine = new-IsEngine (Clocks.new (pos 1_000)) Ids.new

sequential : IsSequential counters
sequential = counters_lem.0

-- Each offer is accepted, with a delta and the top of the book; the trade is printed and reported
-- to both, and changes one level.
numbers :
    map engine_seq_of (run commands start).sink ≡ 1 ∷ 2 ∷ 3 ∷ 4 ∷ 5 ∷ 6 ∷ 7 ∷ 8 ∷ 9 ∷ 10 ∷ 11 ∷ []
unfolding program engine_program start
numbers = refl

unfoldable traded : TestEngine
traded = run commands start

traded-IsEngine : IsEngine traded
unfolding traded
traded-IsEngine = run-IsEngine sequential listed commands start commands-HasLots start-IsEngine

run-IsEngine_example : IsEngine (run commands start)
run-IsEngine_example = run-IsEngine sequential listed commands start commands-HasLots start-IsEngine

run-IsNumbered_example :
    (new : List Outbound) × ((run commands start).sink ≡ start.sink ++ new)
    × IsNumbered (sequential.upcoming start.ids) new
    × (sequential.upcoming (run commands start).ids ≡ sequential.upcoming start.ids + length new)
run-IsNumbered_example = run-IsNumbered sequential listed commands start commands-HasLots

no_lots : Mirror
no_lots s p = 0

no_lots-Shows : Shows no_lots start.book
unfolding program engine_program qty_at_level start no_lots
no_lots-Shows bid p = refl
no_lots-Shows ask p = refl

mirror_follows_example :
    (new : List Outbound) × ((run commands start).sink ≡ start.sink ++ new)
    × Shows (apply_all new no_lots) (run commands start).book
mirror_follows_example =
    mirror_follows sequential listed commands start no_lots commands-HasLots start-IsEngine.book
      no_lots-Shows

stop : KillSwitchSet
stop = record { client_ts = pos 0; admin_token = 7; state = halt }

unfoldable halted : TestEngine
halted = step (kill_switch_set stop) start

halted_step_example :
    IsRejected kill_switched halted (step (new_order (order 1 1 ask 100 5)) halted)
unfolding program engine_program start halted stop
halted_step_example = halted_step (new_order (order 1 1 ask 100 5)) halted refl tt

first_meta : OrderMeta
first_meta = record { side = ask; price = 100; account_id = 1; tif = gtc }

stolen : CancelReplace
stolen = record { client_ts = pos 0; order_id = 1; account_id = 2; new_price = 100; new_qty = 9 }

foreign-IsRejected_example :
    (r : RejectReason) × IsRejected r traded (step (cancel_replace stolen) traded)
unfolding program engine_program start traded first_meta stolen
foreign-IsRejected_example =
    foreign-IsRejected traded 1 first_meta (cancel_replace stolen) 2 traded-IsEngine.covered refl
      refl (λ same. absurd (omega (arith, same)))

step_answers_example :
    (new : List Outbound) × ((step (new_order (order 4 2 bid 101 9)) traded).sink
      ≡ traded.sink ++ new)
    × (has_report 4 new ≡ true)
step_answers_example =
    step_answers sequential listed (new_order (order 4 2 bid 101 9)) 4 traded refl (omega arith)
      traded-IsEngine.book

abbrev is_owned_by_first : Option OrderMeta → Bool
is_owned_by_first m = is_owned m 1

quit : MassCancel
quit = record { client_ts = pos 0; account_id = 1 }

mass_cancel_reports_example :
    let e' = handle_mass_cancel quit (pos 0) traded in
    let mine = λ (j : OrderId). is_owned (traded.book.index j) quit.account_id in
    (((s : Side) (p : Price) → queue_at s p e'.book ≡ without mine (queue_at s p traded.book))
      × ((j : OrderId) → e'.book.index j ≡ (if mine j then none else traded.book.index j))
      × ((j : OrderId) → e'.registry j ≡ (if mine j then none else traded.registry j)))
    × ((new : List Outbound) × (e'.sink ≡ traded.sink ++ new)
        × (map mass_cancelled new ≡ map some (ids_of_account quit.account_id traded.book)))
    × BTreeSet.IsAscending (ids_of_account quit.account_id traded.book)
unfolding program engine_program start traded
mass_cancel_reports_example = mass_cancel_reports quit (pos 0) traded refl traded-IsEngine.book

start-IsWithinCaps : IsWithinCaps start.risk
unfolding start Engine.new Risk.account_of
start-IsWithinCaps a = (omega arith, omega arith)

run-IsWithinCaps_example : IsWithinCaps (run commands start).risk
run-IsWithinCaps_example =
    run-IsWithinCaps sequential listed commands start commands-HasLots start-IsWithinCaps

-- Both offers of account 1 rest after the fill of a part of the first; one of them is counted.
traded_undercounts :
    (map is_owned_by_first (traded.book.index 1 ∷ traded.book.index 2 ∷ []) ≡ true ∷ true ∷ [])
    × ((Risk.account_of 1 traded.risk).open_orders ≡ 1)
unfolding program engine_program start traded
traded_undercounts = (refl, refl)
