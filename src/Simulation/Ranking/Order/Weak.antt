-- ===== src/Simulation/Ranking/Order/Weak.antt =====
-- Weak orders given by a Boolean `<`: they carry over to tuples, `min` finds a least item, and
-- `sorted` an ascending list.
use intelliq.Simulation.Ranking.Order.{lex, least}
use intelliq.Prelude.{
  string_eq, nat_eq, [], ◌≡◌, refl, Bool, true, false, List, ◌∷◌, arith, inl, inr, Bool-cases, All,
  Member, subst, sym,
}

-- `lt` is asymmetric, and what is not less than an item is not less than a lesser one.
pub record IsWeak {A : Type 0} (lt : A → A → Bool) : Type 0 where
  pub asym : (a b : A) → lt a b ≡ true → lt b a ≡ false
  pub trans : (a b c : A) → lt b a ≡ false → lt c b ≡ false → lt c a ≡ false

Member-past :
    {A : Type 0} {r a : A} (b : A) (cs : List A) → Member r (a ∷ cs) → Member r (a ∷ b ∷ cs)
Member-past b cs (inl here) = inl here
Member-past b cs (inr later) = inr (inr later)

module _ {A : Type 0} (lt : A → A → Bool) where
  least-before : (x y : A) (ys : List A) → lt y x ≡ true → least lt x (y ∷ ys) ≡ least lt y ys
  unfolding least
  least-before x y ys h = rw h refl

  least-after : (x y : A) (ys : List A) → lt y x ≡ false → least lt x (y ∷ ys) ≡ least lt x ys
  unfolding least
  least-after x y ys h = rw h refl

  -- `min` is one of the items.
  pub least-Member : (x : A) (xs : List A) → Member (least lt x xs) (x ∷ xs)
  unfolding least
  least-Member x [] = inl refl
  least-Member x (y ∷ ys) = elim (Bool-cases (lt y x)) [
    | inl before ↦
        subst (λ r. Member r (x ∷ y ∷ ys)) (sym (least-before x y ys before))
          (inr (least-Member y ys))
    | inr after ↦
        subst (λ r. Member r (x ∷ y ∷ ys)) (sym (least-after x y ys after))
          (Member-past y ys (least-Member x ys))
  ]

module _ {A : Type 0} (lt : A → A → Bool) (w : IsWeak lt) where
  lex-asym :
      (xs ys : List A) (t u : Bool)
      → (t ≡ true → u ≡ false)
      → lex lt xs ys t ≡ true
      → lex lt ys xs u ≡ false
  unfolding lex
  lex-asym [] [] t u tie h = tie h
  lex-asym [] (y ∷ ys) t u tie h = refl
  lex-asym (x ∷ xs) [] t u tie h = cc
  lex-asym (x ∷ xs) (y ∷ ys) t u tie h =
      ground (arith, w.asym x y, w.asym y x, lex-asym xs ys t u tie)

  lex_trans :
      (xs ys zs : List A) (t u v : Bool)
      → (t ≡ false → u ≡ false → v ≡ false)
      → lex lt ys xs t ≡ false
      → lex lt zs ys u ≡ false
      → lex lt zs xs v ≡ false
  unfolding lex
  lex_trans [] [] [] t u v tie h k = tie h k
  lex_trans [] [] (z ∷ zs) t u v tie h k = refl
  lex_trans [] (y ∷ ys) [] t u v tie h k = cc
  lex_trans [] (y ∷ ys) (z ∷ zs) t u v tie h k = refl
  lex_trans (x ∷ xs) [] zs t u v tie h k = cc
  lex_trans (x ∷ xs) (y ∷ ys) [] t u v tie h k = cc
  lex_trans (x ∷ xs) (y ∷ ys) (z ∷ zs) t u v tie h k = ground (
    arith,
    w.trans x y z,
    w.trans y z x,
    w.trans z x y,
    w.asym x y,
    w.asym y x,
    w.asym y z,
    w.asym z y,
    w.asym x z,
    w.asym z x,
    lex_trans xs ys zs t u v tie,
  )

  -- A tuple of a value's numbers that ends in a text.
  pub lex-IsWeak :
      {B : Type 0} (key : B → List A) (tie : B → B → Bool)
      → IsWeak tie
      → IsWeak (λ a b. lex lt (key a) (key b) (tie a b))
  lex-IsWeak key tie v = record {
    asym = λ a b. lex-asym (key a) (key b) (tie a b) (tie b a) (v.asym a b);
    trans =
        λ a b c. lex_trans (key a) (key b) (key c) (tie b a) (tie c b) (tie c a) (v.trans a b c);
  }

  -- Nothing is less than itself.
  pub lt-irreflexive : (a : A) → lt a a ≡ false
  lt-irreflexive a = elim (Bool-cases (lt a a)) [ inl less ↦ w.asym a a less | inr apart ↦ apart ]

  -- No item is less than `min`.
  pub least-le : (x : A) (xs : List A) → All (λ y. lt y (least lt x xs) ≡ false) (x ∷ xs)
  unfolding least
  least-le x [] = (lt-irreflexive x, tt)
  least-le x (y ∷ ys) = elim (Bool-cases (lt y x)) [
    | inl before ↦
        let rest = least-le y ys in
        subst (λ r. All (λ z. lt z r ≡ false) (x ∷ y ∷ ys)) (sym (least-before lt x y ys before))
          (w.trans _ y x rest.0 (w.asym y x before), rest)
    | inr after ↦
        let rest = least-le x ys in
        subst (λ r. All (λ z. lt z r ≡ false) (x ∷ y ∷ ys)) (sym (least-after lt x y ys after))
          (rest.0, (w.trans _ x y rest.0 after, rest.1))
  ]
