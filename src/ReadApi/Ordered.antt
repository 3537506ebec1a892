-- ===== src/ReadApi/Ordered.antt =====
-- The orders of the listings are orders, over any collation, and strict where no two rows have the
-- same ids.
use service_of_import.Prelude.{
  ℕ, ◌<◌, ◌⊎◌, inl, inr, ap₂, sym, Bool-cases, ==_iff, text_eq, Text, text_eq_iff, Bool, true,
  false, ◌&&◌, ◌||◌, [], ◌∷◌, ◌==◌, ltb, leb, ◌≡◌, refl, arith,
}
use service_of_import.Paging.Order.{IsOrder}
use service_of_import.Database.{CatalogueRow}
use service_of_import.ReadApi.{StockReadModel, text_order, number_order, by_key, by_codes}

-- A collation that tells all texts apart, as those of PostgreSQL do by default.
pub record IsCollation (text_le : Text → Text → Bool) : Type 0 where
  pub total : (s t : Text) → text_le s t ≡ false → text_le t s ≡ true
  pub trans : (s t u : Text) → text_le s t ≡ true → text_le t u ≡ true → text_le s u ≡ true
  pub antisymm : (s t : Text) → text_le s t ≡ true → text_le t s ≡ true → s ≡ t

-- Texts by their code points, the collation "C".
unfoldable pub code_point_le : Text → Text → Bool
code_point_le [] t = true
code_point_le (c ∷ s) [] = false
code_point_le (c ∷ s) (d ∷ t) = let rest = code_point_le s t in ltb c d || (c == d && rest)

code_point_le_total : (s t : Text) → code_point_le s t ≡ false → code_point_le t s ≡ true
unfolding code_point_le
code_point_le_total [] t h = absurd (ground arith)
code_point_le_total (c ∷ s) [] h = refl
code_point_le_total (c ∷ s) (d ∷ t) h = ground (arith, code_point_le_total s t)

code_point_le_trans :
    (s t u : Text) → code_point_le s t ≡ true → code_point_le t u ≡ true → code_point_le s u ≡ true
unfolding code_point_le
code_point_le_trans [] t u h k = refl
code_point_le_trans (c ∷ s) [] u h k = absurd (ground arith)
code_point_le_trans (c ∷ s) (d ∷ t) [] h k = absurd (ground arith)
code_point_le_trans (c ∷ s) (d ∷ t) (e ∷ u) h k = ground (arith, code_point_le_trans s t u)

code_point_le_antisymm : (s t : Text) → code_point_le s t ≡ true → code_point_le t s ≡ true → s ≡ t
unfolding code_point_le
code_point_le_antisymm [] [] h k = refl
code_point_le_antisymm [] (d ∷ t) h k = absurd (ground arith)
code_point_le_antisymm (c ∷ s) [] h k = absurd (ground arith)
code_point_le_antisymm (c ∷ s) (d ∷ t) h k = ground (arith, code_point_le_antisymm s t)

pub code_point_le-IsCollation : IsCollation code_point_le
code_point_le-IsCollation = record {
  total = code_point_le_total;
  trans = code_point_le_trans;
  antisymm = code_point_le_antisymm;
}

module _ (text_le : Text → Text → Bool) (collation : IsCollation text_le) where
  text_order-total :
      (s t : Text) (a b : Bool)
      → (a ≡ false → b ≡ true)
      → text_order text_le s t a ≡ false
      → text_order text_le t s b ≡ true
  text_order-total s t a b f h =
      ground (arith, f, collation.total s t, text_eq_iff s t, text_eq_iff t s)

  text_order_trans :
      (s t u : Text) (a b c : Bool)
      → (a ≡ true → b ≡ true → c ≡ true)
      → text_order text_le s t a ≡ true
      → text_order text_le t u b ≡ true
      → text_order text_le s u c ≡ true
  text_order_trans s t u a b c f h k = ground (
    arith,
    f,
    collation.trans s t u,
    text_eq_iff s t,
    text_eq_iff t u,
    text_eq_iff s u,
    collation.antisymm s t,
    collation.antisymm t u,
  )

  pub by_key-IsOrder : IsOrder (by_key text_le)
  by_key-IsOrder = record {
    total =
        λ x y h. text_order-total x.key y.key (leb x.id y.id) (leb y.id x.id) (λ e. ground arith) h;
    trans = λ x y z h k.
        text_order_trans x.key y.key z.key (leb x.id y.id) (leb y.id z.id) (leb x.id z.id)
          (λ e f. ground arith) h k;
  }

  pub by_codes-IsOrder : IsOrder (by_codes text_le)
  by_codes-IsOrder = record {
    total = λ x y h.
        text_order-total x.warehouse_code y.warehouse_code
          (text_order text_le x.sku y.sku
            (number_order x.warehouse_id y.warehouse_id (leb x.product_id y.product_id)))
          (text_order text_le y.sku x.sku
            (number_order y.warehouse_id x.warehouse_id (leb y.product_id x.product_id)))
          (text_order-total x.sku y.sku
            (number_order x.warehouse_id y.warehouse_id (leb x.product_id y.product_id))
            (number_order y.warehouse_id x.warehouse_id (leb y.product_id x.product_id))
            (λ e. ground arith))
          h;
    trans = λ x y z h k.
        text_order_trans x.warehouse_code y.warehouse_code z.warehouse_code
          (text_order text_le x.sku y.sku
            (number_order x.warehouse_id y.warehouse_id (leb x.product_id y.product_id)))
          (text_order text_le y.sku z.sku
            (number_order y.warehouse_id z.warehouse_id (leb y.product_id z.product_id)))
          (text_order text_le x.sku z.sku
            (number_order x.warehouse_id z.warehouse_id (leb x.product_id z.product_id)))
          (text_order_trans x.sku y.sku z.sku
            (number_order x.warehouse_id y.warehouse_id (leb x.product_id y.product_id))
            (number_order y.warehouse_id z.warehouse_id (leb y.product_id z.product_id))
            (number_order x.warehouse_id z.warehouse_id (leb x.product_id z.product_id))
            (λ e f. ground arith))
          h k;
  }

-- The first text is in front of the second, or they are equal and what is next decides.
abbrev pub TextThen : (Text → Text → Bool) → Text → Text → Type 0 → Type 0
TextThen text_le s t Next = ((text_le s t ≡ true) × ¬ (s ≡ t)) ⊎ ((s ≡ t) × Next)

abbrev pub NumberThen : ℕ → ℕ → Type 0 → Type 0
NumberThen m n Next = (m < n) ⊎ ((m ≡ n) × Next)

-- The order by key, and then by id.
abbrev pub KeyPrecedes : (Text → Text → Bool) → CatalogueRow → CatalogueRow → Type 0
KeyPrecedes text_le x y = TextThen text_le x.key y.key (x.id < y.id)

abbrev pub row_ids : StockReadModel → ℕ × ℕ
row_ids r = (r.warehouse_id, r.product_id)

-- The order by code, SKU, id of the warehouse and id of the product.
abbrev pub StockPrecedes : (Text → Text → Bool) → StockReadModel → StockReadModel → Type 0
StockPrecedes text_le x y = TextThen text_le x.warehouse_code y.warehouse_code (
    TextThen text_le x.sku y.sku
      (NumberThen x.warehouse_id y.warehouse_id (x.product_id < y.product_id)))

number_then :
    (m n : ℕ) (tie : Bool) (Next : Type 0)
    → (m ≡ n → tie ≡ true → Next)
    → number_order m n tie ≡ true
    → NumberThen m n Next
number_then m n tie Next f h = elim (Bool-cases (ltb m n)) [
  | inl e ↦ inl (ground arith)
  | inr e ↦
      let same : m ≡ n = ground (arith, ==_iff m n) in
      let tied : tie ≡ true = ground arith in inr (same, f same tied)
]

NumberThen-asymm :
    (m n : ℕ) (Next Next' : Type 0)
    → (Next → Next' → ⊥)
    → NumberThen m n Next
    → NumberThen n m Next'
    → ⊥
NumberThen-asymm m n Next Next' f (inl h) (inl k) = omega arith
NumberThen-asymm m n Next Next' f (inl h) (inr k) = omega (arith, k.0)
NumberThen-asymm m n Next Next' f (inr h) (inl k) = omega (arith, h.0)
NumberThen-asymm m n Next Next' f (inr h) (inr k) = f h.1 k.1

module _ (text_le : Text → Text → Bool) where
  text_then :
      (s t : Text) (tie : Bool) (Next : Type 0)
      → (tie ≡ true → Next)
      → text_order text_le s t tie ≡ true
      → TextThen text_le s t Next
  text_then s t tie Next f h = elim (Bool-cases (text_eq s t)) [
    | inl e ↦ let tied : tie ≡ true = ground arith in inr ((text_eq_iff s t).0 e, f tied)
    | inr e ↦ inl (ground arith, λ same. absurd (ground (arith, (text_eq_iff s t).1 same)))
  ]

  pub by_key-strict :
      (x y : CatalogueRow) → ¬ (x.id ≡ y.id) → by_key text_le x y ≡ true → KeyPrecedes text_le x y
  by_key-strict x y d = text_then x.key y.key (leb x.id y.id) (x.id < y.id) (λ e. ground (arith, d))

  pub by_codes-strict :
      (x y : StockReadModel)
      → ¬ (row_ids x ≡ row_ids y)
      → by_codes text_le x y ≡ true
      → StockPrecedes text_le x y
  by_codes-strict x y d =
      let last = leb x.product_id y.product_id in
      let Last = x.product_id < y.product_id in
      text_then x.warehouse_code y.warehouse_code
        (text_order text_le x.sku y.sku (number_order x.warehouse_id y.warehouse_id last))
        (TextThen text_le x.sku y.sku (NumberThen x.warehouse_id y.warehouse_id Last))
        (text_then x.sku y.sku (number_order x.warehouse_id y.warehouse_id last)
          (NumberThen x.warehouse_id y.warehouse_id Last)
          (number_then x.warehouse_id y.warehouse_id last Last (λ same tied.
            elim (Bool-cases (x.product_id == y.product_id)) [
              | inl e ↦
                  absurd (d (ap₂ (λ i j. (i, j)) same ((==_iff x.product_id y.product_id).0 e)))
              | inr e ↦ ground (arith, ==_iff x.product_id y.product_id)
            ])))

  module _ (collation : IsCollation text_le) where
    TextThen-asymm :
        (s t : Text) (Next Next' : Type 0)
        → (Next → Next' → ⊥)
        → TextThen text_le s t Next
        → TextThen text_le t s Next'
        → ⊥
    TextThen-asymm s t Next Next' f (inl h) (inl k) = h.1 (collation.antisymm s t h.0 k.0)
    TextThen-asymm s t Next Next' f (inl h) (inr k) = h.1 (sym k.0)
    TextThen-asymm s t Next Next' f (inr h) (inl k) = k.1 (sym h.0)
    TextThen-asymm s t Next Next' f (inr h) (inr k) = f h.1 k.1

    pub KeyPrecedes-asymm :
        (x y : CatalogueRow) → KeyPrecedes text_le x y → KeyPrecedes text_le y x → ⊥
    KeyPrecedes-asymm x y =
        TextThen-asymm x.key y.key (x.id < y.id) (y.id < x.id) (λ h k. omega arith)

    pub StockPrecedes-asymm :
        (x y : StockReadModel) → StockPrecedes text_le x y → StockPrecedes text_le y x → ⊥
    StockPrecedes-asymm x y =
        let Last = x.product_id < y.product_id in
        let Last' = y.product_id < x.product_id in
        let Ids = NumberThen x.warehouse_id y.warehouse_id Last in
        let Ids' = NumberThen y.warehouse_id x.warehouse_id Last' in
        TextThen-asymm x.warehouse_code y.warehouse_code (TextThen text_le x.sku y.sku Ids)
          (TextThen text_le y.sku x.sku Ids')
          (TextThen-asymm x.sku y.sku Ids Ids'
            (NumberThen-asymm x.warehouse_id y.warehouse_id Last Last' (λ h k. omega arith)))
