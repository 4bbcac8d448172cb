-- ===== src/Price/Laws.antt =====
-- The price point that is selected is the best of those that fit.
use mathlib.Core.List.{Memᴰ}
use kube_greencosts.Prelude.{
  ℕ, String, ◌≡◌, sym, ◌∙◌, ap, subst, ◌⊎◌, inl, inr, Bool, true, false, Bool-cases, Option, none,
  some, List, [], ◌∷◌, All, if◌then◌else◌,
}
use kube_greencosts.Prelude.Int.{ℤ}
use kube_greencosts.Price.{
  Float, Strategy, lowest_price, highest_price, PricePoint, selected, strategy_of,
  price_point_score, is_better, chosen, select_loop, answer_of, select_by, select_price_point,
}

-- The order `<` of floating-point numbers, NaN excepted.
pub record FloatOrder (float : Float) : Type 1 where
  pub IsNumber : float.F → Type 0
  pub asymmetric : (a b : float.F) → float.lt a b ≡ true → float.lt b a ≡ false
  pub transitive :
      (a b c : float.F)
      → IsNumber a
      → IsNumber b
      → IsNumber c
      → float.lt a b ≡ false
      → float.lt b c ≡ false
      → float.lt a c ≡ false

module _ (float : Float) where
  open float use {F, lt}

  abbrev pub with_score :
      PricePoint F → Option F → List (PricePoint F × F) → List (PricePoint F × F)
  with_score p none rest = rest
  with_score p (some score) rest = (p, score) ∷ rest

  -- The price points that fit, with their scores.
  abbrev pub scores : List (PricePoint F) → ℤ → ℕ → List (PricePoint F × F)
  scores [] duration window_end = []
  scores (p ∷ ps) duration window_end =
      with_score p (price_point_score float p ps duration window_end)
        (scores ps duration window_end)

  pub answered :
      (r : Option (PricePoint F × F)) (p : PricePoint F)
      → answer_of float r ≡ selected p
      → (score : F) × (r ≡ some (p, score))
  answered none p e = absurd (cc)
  answered (some (q, score)) p e = (score, ap (λ (x : PricePoint F). some (x, score)) (point e))
    where
      point : selected q ≡ selected p → q ≡ p
      point h = cc

  module _ (order : FloatOrder float) (strategy : Strategy) where
    open order use {IsNumber}

    abbrev Worse : F → F → Type 0
    Worse a b = is_better float strategy a b ≡ false

    abbrev Scored : PricePoint F × F → Type 0
    Scored q = IsNumber q.1

  better-asymmetric :
      (order : FloatOrder float) (strategy : Strategy) (a b : F)
      → is_better float strategy a b ≡ true
      → Worse order strategy b a
  better-asymmetric order lowest_price a b h = order.asymmetric a b h
  better-asymmetric order highest_price a b h = order.asymmetric b a h

  Worse-trans :
      (order : FloatOrder float) (strategy : Strategy) (a b c : F)
      → order.IsNumber a
      → order.IsNumber b
      → order.IsNumber c
      → Worse order strategy a b
      → Worse order strategy b c
      → Worse order strategy a c
  Worse-trans order lowest_price a b c na nb nc h g = order.transitive a b c na nb nc h g
  Worse-trans order highest_price a b c na nb nc h g = order.transitive c b a nc nb na g h

  module _ (order : FloatOrder float) (strategy : Strategy) where
    open order use {IsNumber}

    Worse-refl : (a : F) → Worse order strategy a a
    Worse-refl a = elim (Bool-cases (is_better float strategy a a)) [
      | inl better ↦ better-asymmetric order strategy a a better
      | inr worse ↦ worse
    ]

    -- The selection so far: none, or one with a number as its score.
    abbrev IsFine : Option (PricePoint F × F) → Type 0
    IsFine none = Unit
    IsFine (some q) = IsNumber q.1

    -- No earlier selection is better than a score.
    abbrev Beaten : Option (PricePoint F × F) → F → Type 0
    Beaten none s = Unit
    Beaten (some q) s = Worse order strategy q.1 s

    record IsBest (listed : List (PricePoint F × F)) (so_far : Option (PricePoint F × F))
        (q : PricePoint F × F) : Type 0 where
      from : Memᴰ q listed ⊎ (so_far ≡ some q)
      best : All (λ (r : PricePoint F × F). Worse order strategy r.1 q.1) listed
      beaten : Beaten so_far q.1
      number : IsNumber q.1

    inj : {a b : PricePoint F × F} → some a ≡ some b → a ≡ b
    inj h = cc

    IsBest-replaced :
        (p : PricePoint F) (score : F) (listed : List (PricePoint F × F)) (r q : PricePoint F × F)
        → is_better float strategy score r.1 ≡ true
        → IsNumber score
        → IsNumber r.1
        → IsBest listed (some (p, score)) q
        → IsBest ((p, score) ∷ listed) (some r) q
    IsBest-replaced p score listed r q better n m b = record {
      from = elim b.from [
        | inl later ↦ inl (Memᴰ.tail later)
        | inr now ↦ inl (Memᴰ.head (sym (inj now)))
      ];
      best = (b.beaten, b.best);
      beaten =
          Worse-trans order strategy _ _ _ m n b.number
            (better-asymmetric order strategy score r.1 better) b.beaten;
      number = b.number;
    }

    IsBest-kept :
        (p : PricePoint F) (score : F) (listed : List (PricePoint F × F)) (r q : PricePoint F × F)
        → Worse order strategy score r.1
        → IsNumber score
        → IsNumber r.1
        → IsBest listed (some r) q
        → IsBest ((p, score) ∷ listed) (some r) q
    IsBest-kept p score listed r q worse n m b = record {
      from = elim b.from [ inl later ↦ inl (Memᴰ.tail later) | inr before ↦ inr before ];
      best = (Worse-trans order strategy _ _ _ n m b.number worse b.beaten, b.best);
      beaten = b.beaten;
      number = b.number;
    }

    -- one turn of the loop, and then the rest
    IsBest-cons :
        (p : PricePoint F) (score : Option F) (listed : List (PricePoint F × F))
        (so_far : Option (PricePoint F × F)) (q : PricePoint F × F)
        → All (Scored order strategy) (with_score p score listed)
        → IsFine so_far
        → IsBest listed (chosen float strategy p score so_far) q
        → IsBest (with_score p score listed) so_far q
    IsBest-cons p none listed so_far q numbers fine b = b
    IsBest-cons p (some score) listed none q numbers fine b = record {
      from = elim b.from [
        | inl later ↦ inl (Memᴰ.tail later)
        | inr now ↦ inl (Memᴰ.head (sym (inj now)))
      ];
      best = (b.beaten, b.best);
      beaten = tt;
      number = b.number;
    }
    IsBest-cons p (some score) listed (some r) q numbers fine b =
        elim (Bool-cases (is_better float strategy score r.1)) [
          | inl better ↦ IsBest-replaced p score listed r q better numbers.0 fine (rw better at b)
          | inr worse ↦ IsBest-kept p score listed r q worse numbers.0 fine (rw worse at b)
        ]

    IsBest-start :
        (so_far : Option (PricePoint F × F)) (q : PricePoint F × F)
        → IsFine so_far
        → so_far ≡ some q
        → IsBest [] so_far q
    IsBest-start none q fine e = absurd (cc)
    IsBest-start (some r) q fine e = record {
      from = inr e;
      best = tt;
      beaten =
          subst (λ (x : PricePoint F × F). Worse order strategy r.1 x.1) (inj e) (Worse-refl r.1);
      number = subst (λ (x : PricePoint F × F). IsNumber x.1) (inj e) fine;
    }

    with_score-tail :
        (p : PricePoint F) (score : Option F) (listed : List (PricePoint F × F))
        → All (Scored order strategy) (with_score p score listed)
        → All (Scored order strategy) listed
    with_score-tail p none listed h = h
    with_score-tail p (some score) listed h = h.1

    IsFine-if :
        (b : Bool) (q r : PricePoint F × F)
        → IsNumber q.1
        → IsNumber r.1
        → IsFine (if b then some q else some r)
    IsFine-if true q r n m = n
    IsFine-if false q r n m = m

    IsFine-chosen :
        (p : PricePoint F) (score : Option F) (listed : List (PricePoint F × F))
        (so_far : Option (PricePoint F × F))
        → All (Scored order strategy) (with_score p score listed)
        → IsFine so_far
        → IsFine (chosen float strategy p score so_far)
    IsFine-chosen p none listed so_far h fine = fine
    IsFine-chosen p (some score) listed none h fine = h.0
    IsFine-chosen p (some score) listed (some r) h fine = IsFine-if _ (p, score) r h.0 fine

    select_loop-IsBest :
        (duration : ℤ) (window_end : ℕ) (ps : List (PricePoint F))
        (so_far : Option (PricePoint F × F)) (q : PricePoint F × F)
        → All (Scored order strategy) (scores ps duration window_end)
        → IsFine so_far
        → select_loop float strategy duration window_end ps so_far ≡ some q
        → IsBest (scores ps duration window_end) so_far q
    unfolding select_loop
    select_loop-IsBest duration window_end [] so_far q numbers fine e = IsBest-start so_far q fine e
    select_loop-IsBest duration window_end (p ∷ ps) so_far q numbers fine e =
        IsBest-cons p _ _ so_far q numbers fine (
          select_loop-IsBest duration window_end ps _ q (with_score-tail p _ _ numbers)
            (IsFine-chosen p _ _ so_far numbers fine) e)

    best_of :
        (duration : ℤ) (window_end : ℕ) (prices : List (PricePoint F)) (p : PricePoint F)
        → All (Scored order strategy) (scores prices duration window_end)
        → select_by float (some strategy) prices duration window_end ≡ selected p
        → (score : F) × Memᴰ (p, score) (scores prices duration window_end)
          × All
              (λ (r : PricePoint F × F). is_better float strategy r.1 score ≡ false)
              (scores prices duration window_end)
    best_of duration window_end prices p numbers e =
        let (score, loop) = answered _ p e in
        let b = select_loop-IsBest duration window_end prices none (p, score) numbers tt loop in
        (score, elim b.from [ inl listed ↦ listed | inr before ↦ absurd (cc) ], b.best)

    -- A price point that is selected is one of those that fit, and none of those that fit is better by
    -- the strategy that the text stands for, if the scores are numbers.
    pub selected_is_best :
        (prices : List (PricePoint F)) (text : String) (duration : ℤ) (window_end : ℕ)
        (p : PricePoint F)
        → strategy_of text ≡ some strategy
        → All (λ (r : PricePoint F × F). IsNumber r.1) (scores prices duration window_end)
        → select_price_point float prices text duration window_end ≡ selected p
        → (score : F) × Memᴰ (p, score) (scores prices duration window_end)
          × All
              (λ (r : PricePoint F × F). is_better float strategy r.1 score ≡ false)
              (scores prices duration window_end)
    unfolding select_price_point
    selected_is_best [] text duration window_end p known numbers e = absurd (cc)
    selected_is_best (x ∷ xs) text duration window_end p known numbers e =
        best_of duration window_end (x ∷ xs) p numbers (
          sym (ap (λ (o : Option Strategy). select_by float o (x ∷ xs) duration window_end) known)
          ∙ e)
