-- ===== src/Engine/Mirror/Diffing.antt =====
-- The rounds of `emit_l2_deltas` of crates/engine/src/engine.rs.
use hft_clob_core.Prelude.{
  ℕ, zero, suc, ◌+◌, ◌≤◌, ◌≡◌, refl, ◌∙◌, sym, inl, inr, true, false, ◌||◌, [], ◌∷◌, append-nil,
  Bool-cases, length, if◌then◌else◌, ◌==◌, arith,
}
use hft_clob_core.Domain.Side.{Side}
use hft_clob_core.Domain.Price.{Price}
use hft_clob_core.Matching.Types.{IdGenerator}
use hft_clob_core.Matching.View.{same_place, same_place_eq, same_place_refl}
use hft_clob_core.Engine.{Engine, Clock, emit}
use hft_clob_core.Engine.Reports.{emit_l2_delta}
use hft_clob_core.Engine.Deltas.{StepLevels, same_key, key_before, diff_round, diff}
use hft_clob_core.Engine.Mirror.{apply, apply_all, lookup, has_level}
use hft_clob_core.Engine.Mirror.Merging.{
  AllAfter, IsSorted, IsDiff, IsRound, IsRound-IsDiff, same_key-same_place, key_before_total,
  AllAfter-trans, has_level-AllAfter, lookup-absent, lots_of_qty,
}

-- A place that is not the first of the levels.
lookup_tail :
    (s : Side) (p : Price) (n : ℕ) (lv : StepLevels) (s' : Side) (p' : Price)
    → same_place s p s' p' ≡ false
    → (lookup lv s' p' ≡ lookup ((s, p, n) ∷ lv) s' p')
      × (has_level lv s' p' ≡ has_level ((s, p, n) ∷ lv) s' p')
unfolding lookup has_level
lookup_tail s p n lv s' p' h = (ground arith, ground arith)

lookup_first :
    (s : Side) (p : Price) (n : ℕ) (lv : StepLevels)
    → (lookup ((s, p, n) ∷ lv) s p ≡ n) × (has_level ((s, p, n) ∷ lv) s p ≡ true)
unfolding lookup has_level
lookup_first s p n lv = rw (same_place_refl s p) (refl, refl)

module _ {L G C : Type 0} ⦃gen : IdGenerator G⦄ ⦃clk : Clock C⦄ where
  -- A delta about a place, whose lots it tells.
  sends :
      (s : Side) (p : Price) (n : ℕ) (pre post pre' post' : StepLevels) (e : Engine L G C)
      → lookup post s p ≡ n
      → (has_level pre s p || has_level post s p) ≡ true
      → (has_level pre' s p ≡ false) × (has_level post' s p ≡ false)
      → ((s' : Side) (p' : Price)
          → same_place s p s' p' ≡ false
          → (lookup pre' s' p' ≡ lookup pre s' p') × (has_level pre' s' p' ≡ has_level pre s' p'))
      → ((s' : Side) (p' : Price)
          → same_place s p s' p' ≡ false
          → (lookup post' s' p' ≡ lookup post s' p')
            × (has_level post' s' p' ≡ has_level post s' p'))
      → IsRound s p pre post pre' post' e (emit_l2_delta s p n e)
  unfolding emit_l2_delta emit apply apply_all
  sends s p n pre post pre' post' e value listed gone same_pre same_post = record {
    messages = _;
    book = refl;
    sent = refl;
    here = λ mirror h. rw (same_place_refl s p) (lots_of_qty n ∙ sym value);
    there = λ mirror s' p' h. rw h refl;
    listed = listed;
    gone = gone;
    same_pre = same_pre;
    same_post = same_post;
  }

  -- A level that is removed, is new, or has changed.
  removed :
      (s : Side) (p : Price) (n : ℕ) (pre post : StepLevels) (e : Engine L G C)
      → AllAfter s p pre
      → AllAfter s p post
      → IsRound s p ((s, p, n) ∷ pre) post pre post e (emit_l2_delta s p 0 e)
  removed s p n pre post e a b =
      sends s p 0 ((s, p, n) ∷ pre) post pre post e
        (lookup-absent post s p (has_level-AllAfter s p post b))
        (ground (arith, lookup_first s p n pre))
        (has_level-AllAfter s p pre a, has_level-AllAfter s p post b) (lookup_tail s p n pre)
        (λ s' p' h. (refl, refl))

  added :
      (s : Side) (p : Price) (n : ℕ) (pre post : StepLevels) (e : Engine L G C)
      → AllAfter s p pre
      → AllAfter s p post
      → IsRound s p pre ((s, p, n) ∷ post) pre post e (emit_l2_delta s p n e)
  added s p n pre post e a b =
      sends s p n pre ((s, p, n) ∷ post) pre post e (lookup_first s p n post).0
        (ground (arith, lookup_first s p n post))
        (has_level-AllAfter s p pre a, has_level-AllAfter s p post b) (λ s' p' h. (refl, refl))
        (lookup_tail s p n post)

  changed :
      (s : Side) (p : Price) (n n' : ℕ) (pre post : StepLevels) (e : Engine L G C)
      → AllAfter s p pre
      → AllAfter s p post
      → IsRound s p ((s, p, n) ∷ pre) ((s, p, n') ∷ post) pre post e (emit_l2_delta s p n' e)
  changed s p n n' pre post e a b =
      sends s p n' ((s, p, n) ∷ pre) ((s, p, n') ∷ post) pre post e (lookup_first s p n' post).0
        (ground (arith, lookup_first s p n' post))
        (has_level-AllAfter s p pre a, has_level-AllAfter s p post b) (lookup_tail s p n pre)
        (lookup_tail s p n' post)

  -- A level that has the same lots as before.
  same_lots :
      (s : Side) (p : Price) (n n' : ℕ) (pre post : StepLevels) (e : Engine L G C)
      → n ≡ n'
      → AllAfter s p pre
      → AllAfter s p post
      → IsRound s p ((s, p, n) ∷ pre) ((s, p, n') ∷ post) pre post e e
  unfolding apply_all
  same_lots s p n n' pre post e x a b = record {
    messages = [];
    book = refl;
    sent = sym (append-nil e.sink);
    here = λ mirror h. h ∙ (lookup_first s p n pre).0 ∙ x ∙ sym (lookup_first s p n' post).0;
    there = λ mirror s' p' h. refl;
    listed = ground (arith, lookup_first s p n' post);
    gone = (has_level-AllAfter s p pre a, has_level-AllAfter s p post b);
    same_pre = lookup_tail s p n pre;
    same_post = lookup_tail s p n' post;
  }

  same-IsRound :
      (s s' : Side) (p p' : Price) (n n' : ℕ) (pre post : StepLevels) (e : Engine L G C)
      → same_place s p s' p' ≡ true
      → AllAfter s p pre
      → AllAfter s' p' post
      → IsRound s' p'
          ((s, p, n) ∷ pre)
          ((s', p', n') ∷ post)
          pre
          post
          e
          (if n == n' then e else emit_l2_delta s' p' n' e)
  same-IsRound s s' p p' n n' pre post e h a b =
      let (es, ep) = same_place_eq s s' p p' h in
      let a' : AllAfter s' p' pre = rw (es, ep) at a in
      elim (Bool-cases (n == n')) [
        | inl x ↦ rw (es, ep, x) (same_lots s' p' n n' pre post e (ground arith) a' b)
        | inr x ↦ rw (es, ep, x) (changed s' p' n n' pre post e a' b)
      ]

  nothing : (e : Engine L G C) → IsDiff [] [] e e
  unfolding apply_all
  nothing e = record {
    messages = [];
    book = refl;
    sent = sym (append-nil e.sink);
    changes = λ mirror s p h. h;
    keeps = λ mirror s p h k. refl;
  }

  diff-nil : (fuel : ℕ) (e : Engine L G C) → diff fuel [] [] e ≡ e
  unfolding diff diff_round
  diff-nil zero e = refl
  diff-nil (suc fuel) e = diff-nil fuel e

  -- With fuel for every level the deltas carry sorted levels before to sorted levels after.
  pub diff-IsDiff :
      (fuel : ℕ) (pre post : StepLevels) (e : Engine L G C)
      → length pre + length post ≤ fuel
      → IsSorted pre
      → IsSorted post
      → IsDiff pre post e (diff fuel pre post e)
  unfolding diff diff_round
  diff-IsDiff fuel [] [] e f a b = rw (diff-nil fuel e) (nothing e)
  diff-IsDiff zero ((s, p, n) ∷ pre) post e f a b = absurd (omega arith)
  diff-IsDiff zero [] ((s, p, n) ∷ post) e f a b = absurd (omega arith)
  diff-IsDiff (suc fuel) ((s, p, n) ∷ pre) [] e f a b =
      IsRound-IsDiff s p ((s, p, n) ∷ pre) [] pre [] e (emit_l2_delta s p 0 e) _
        (removed s p n pre [] e a.0 tt)
        (diff-IsDiff fuel pre [] (emit_l2_delta s p 0 e) (omega arith) a.1 tt)
  diff-IsDiff (suc fuel) [] ((s, p, n) ∷ post) e f a b =
      IsRound-IsDiff s p [] ((s, p, n) ∷ post) [] post e (emit_l2_delta s p n e) _
        (added s p n [] post e tt b.0)
        (diff-IsDiff fuel [] post (emit_l2_delta s p n e) (omega arith) tt b.1)
  diff-IsDiff (suc fuel) ((s, p, n) ∷ pre) ((s', p', n') ∷ post) e f a b =
      elim (Bool-cases (same_key s p s' p')) [
        | inl x ↦ rw x (
            IsRound-IsDiff s' p' _ _ pre post e (if n == n' then e else emit_l2_delta s' p' n' e) _
              (same-IsRound s s' p p' n n' pre post e (sym (same_key-same_place s s' p p') ∙ x) a.0
                b.0)
              (diff-IsDiff fuel pre post _ (omega arith) a.1 b.1))
        | inr x ↦ elim (Bool-cases (key_before s p s' p')) [
          | inl y ↦
              rw (x, y)
                (IsRound-IsDiff s p _ _ pre ((s', p', n') ∷ post) e (emit_l2_delta s p 0 e) _
                  (removed s p n pre ((s', p', n') ∷ post) e a.0
                    (y, AllAfter-trans s s' p p' post y b.0))
                  (diff-IsDiff fuel pre ((s', p', n') ∷ post) _ (omega arith) a.1 b))
          | inr y ↦
              let z = key_before_total s s' p p' (sym (same_key-same_place s s' p p') ∙ x) y in
              rw (x, y)
                (IsRound-IsDiff s' p' _ _ ((s, p, n) ∷ pre) post e (emit_l2_delta s' p' n' e) _
                  (added s' p' n' ((s, p, n) ∷ pre) post e (z, AllAfter-trans s' s p' p pre z a.0)
                    b.0)
                  (diff-IsDiff fuel ((s, p, n) ∷ pre) post _ (omega arith) a b.1))
        ]
      ]
