-- ===== src/Engine/Mirror/Merging.antt =====
-- `emit_l2_deltas` of crates/engine/src/engine.rs: its deltas carry the levels before to those after.
use hft_clob_core.Prelude.{
  ℕ, ◌≡◌, refl, ◌∙◌, sym, inl, inr, true, false, ◌||◌, List, [], ◌∷◌, ◌++◌, append_assoc,
  Bool-cases, get_or, to_option, arith,
}
use hft_clob_core.Domain.Side
use hft_clob_core.Domain.Side.{Side, bid, ask}
use hft_clob_core.Domain.Qty
use hft_clob_core.Domain.Price.{Price}
use hft_clob_core.Matching.View.{same_place, same_place_eq}
use hft_clob_core.Wire.Outbound.{Outbound}
use hft_clob_core.Engine.{Engine}
use hft_clob_core.Engine.Deltas.{StepLevels, same_key, key_before}
use hft_clob_core.Engine.Mirror.{Mirror, apply_all, lookup, has_level, apply_all-append}

-- Strictly ascending keys.
abbrev pub AllAfter : Side → Price → StepLevels → Type 0
AllAfter s p [] = Unit {0}
AllAfter s p ((s', p', n) ∷ lv) = (key_before s p s' p' ≡ true) × AllAfter s p lv

abbrev pub IsSorted : StepLevels → Type 0
IsSorted [] = Unit {0}
IsSorted ((s, p, n) ∷ lv) = AllAfter s p lv × IsSorted lv

pub same_key-same_place : (s s' : Side) (p p' : Price) → same_key s p s' p' ≡ same_place s p s' p'
unfolding same_key Side.as_u8
same_key-same_place bid bid p p' = refl
same_key-same_place bid ask p p' = refl
same_key-same_place ask bid p p' = refl
same_key-same_place ask ask p p' = refl

pub key_before_other :
    (s s' : Side) (p p' : Price) → key_before s p s' p' ≡ true → same_place s' p' s p ≡ false
unfolding key_before Side.as_u8
key_before_other bid bid p p' h = ground arith
key_before_other bid ask p p' h = refl
key_before_other ask bid p p' h = refl
key_before_other ask ask p p' h = ground arith

key_before_trans :
    (s s' s'' : Side) (p p' p'' : Price)
    → key_before s p s' p' ≡ true
    → key_before s' p' s'' p'' ≡ true
    → key_before s p s'' p'' ≡ true
unfolding key_before Side.as_u8
key_before_trans bid bid bid p p' p'' h k = ground arith
key_before_trans bid bid ask p p' p'' h k = refl
key_before_trans bid ask bid p p' p'' h k = ground arith
key_before_trans bid ask ask p p' p'' h k = refl
key_before_trans ask bid bid p p' p'' h k = ground arith
key_before_trans ask bid ask p p' p'' h k = ground arith
key_before_trans ask ask bid p p' p'' h k = ground arith
key_before_trans ask ask ask p p' p'' h k = ground arith

pub key_before_total :
    (s s' : Side) (p p' : Price)
    → same_place s p s' p' ≡ false
    → key_before s p s' p' ≡ false
    → key_before s' p' s p ≡ true
unfolding key_before Side.as_u8
key_before_total bid bid p p' h k = ground arith
key_before_total bid ask p p' h k = ground arith
key_before_total ask bid p p' h k = refl
key_before_total ask ask p p' h k = ground arith

pub AllAfter-trans :
    (s s' : Side) (p p' : Price) (lv : StepLevels)
    → key_before s p s' p' ≡ true
    → AllAfter s' p' lv
    → AllAfter s p lv
AllAfter-trans s s' p p' [] h a = tt
AllAfter-trans s s' p p' ((s'', p'', n) ∷ lv) h a =
    (key_before_trans s s' s'' p p' p'' h a.0, AllAfter-trans s s' p p' lv h a.1)

pub has_level-AllAfter :
    (s : Side) (p : Price) (lv : StepLevels) → AllAfter s p lv → has_level lv s p ≡ false
unfolding has_level
has_level-AllAfter s p [] a = refl
has_level-AllAfter s p ((s', p', n) ∷ lv) a =
    rw (key_before_other s s' p p' a.0) (has_level-AllAfter s p lv a.1)

pub lookup-absent :
    (lv : StepLevels) (s : Side) (p : Price) → has_level lv s p ≡ false → lookup lv s p ≡ 0
unfolding lookup has_level
lookup-absent [] s p h = refl
lookup-absent ((s', p', n) ∷ lv) s p h = ground (arith, lookup-absent lv s p)

pub lots_of_qty : (n : ℕ) → get_or (to_option (Qty.new n)) 0 ≡ n
unfolding Qty.new
lots_of_qty n = ground arith

module _ {L G C : Type 0} where
  -- From `e` to `e'` deltas are sent that carry the one list of levels to the other.
  pub record IsDiff (pre post : StepLevels) (e e' : Engine L G C) : Type 0 where
    pub messages : List Outbound
    pub book : e'.book ≡ e.book
    pub sent : e'.sink ≡ e.sink ++ messages
    pub changes :
        (mirror : Mirror) (s : Side) (p : Price)
        → mirror s p ≡ lookup pre s p
        → apply_all messages mirror s p ≡ lookup post s p
    pub keeps :
        (mirror : Mirror) (s : Side) (p : Price)
        → has_level pre s p ≡ false
        → has_level post s p ≡ false
        → apply_all messages mirror s p ≡ mirror s p

  -- `e1` is `e` after the messages about one place, which the lists then have no more.
  pub record IsRound (s : Side) (p : Price) (pre post pre' post' : StepLevels) (e e1 : Engine L G C)
      : Type 0 where
    pub messages : List Outbound
    pub book : e1.book ≡ e.book
    pub sent : e1.sink ≡ e.sink ++ messages
    pub here :
        (mirror : Mirror)
        → mirror s p ≡ lookup pre s p
        → apply_all messages mirror s p ≡ lookup post s p
    pub there :
        (mirror : Mirror) (s' : Side) (p' : Price)
        → same_place s p s' p' ≡ false
        → apply_all messages mirror s' p' ≡ mirror s' p'
    pub listed : (has_level pre s p || has_level post s p) ≡ true
    pub gone : (has_level pre' s p ≡ false) × (has_level post' s p ≡ false)
    pub same_pre :
        (s' : Side) (p' : Price)
        → same_place s p s' p' ≡ false
        → (lookup pre' s' p' ≡ lookup pre s' p') × (has_level pre' s' p' ≡ has_level pre s' p')
    pub same_post :
        (s' : Side) (p' : Price)
        → same_place s p s' p' ≡ false
        → (lookup post' s' p' ≡ lookup post s' p') × (has_level post' s' p' ≡ has_level post s' p')

  pub IsRound-IsDiff :
      (s : Side) (p : Price) (pre post pre' post' : StepLevels) (e e1 e' : Engine L G C)
      → IsRound s p pre post pre' post' e e1
      → IsDiff pre' post' e1 e'
      → IsDiff pre post e e'
  IsRound-IsDiff s p pre post pre' post' e e1 e' r d = record {
    messages = r.messages ++ d.messages;
    book = d.book ∙ r.book;
    sent = rw (d.sent, r.sent) (append_assoc e.sink r.messages d.messages);
    changes = λ mirror s' p' h. elim (Bool-cases (same_place s p s' p')) [
      | inl x ↦
          let (es, ep) = same_place_eq s s' p p' x in
          let agrees : mirror s p ≡ lookup pre s p = rw (es, ep) h in
          rw (apply_all-append r.messages d.messages mirror, sym es, sym ep)
            (d.keeps (apply_all r.messages mirror) s p r.gone.0 r.gone.1 ∙ r.here mirror agrees)
      | inr x ↦ rw (apply_all-append r.messages d.messages mirror) (
          d.changes (apply_all r.messages mirror) s' p'
            (r.there mirror s' p' x ∙ h ∙ sym (r.same_pre s' p' x).0)
          ∙ (r.same_post s' p' x).0)
    ];
    keeps = λ mirror s' p' h k. elim (Bool-cases (same_place s p s' p')) [
      | inl x ↦ let (es, ep) = same_place_eq s s' p p' x in absurd (ground (arith, r.listed))
      | inr x ↦ rw (apply_all-append r.messages d.messages mirror) (
          d.keeps (apply_all r.messages mirror) s' p' ((r.same_pre s' p' x).1 ∙ h)
            ((r.same_post s' p' x).1 ∙ k)
          ∙ r.there mirror s' p' x)
    ];
  }
