-- ===== src/Tests/Counters.antt =====
-- The theorem on draws from the counters at a concrete input, and a draw that panics.
use hft_clob_core.Prelude.{◌≡◌, refl, [], ◌∷◌, none, some, arith}
use hft_clob_core.Engine.Ids
use hft_clob_core.Engine.Ids.{resume}
use hft_clob_core.Engine.Ids.Drawing.{trade, seq, draw_all, draw_all_lem}

draw_all_lem_example :
    draw_all (seq ∷ trade ∷ seq ∷ []) (resume 5 9) ≡ some (5 ∷ [], 9 ∷ 10 ∷ [], resume 6 11)
draw_all_lem_example = draw_all_lem (seq ∷ trade ∷ seq ∷ []) 5 9 (omega arith) (omega arith)

draw_past_the_last : draw_all (seq ∷ []) (resume 5 0xffff_ffff_ffff_ffff) ≡ none
unfolding draw_all resume Ids.next_engine_seq
draw_past_the_last = refl
