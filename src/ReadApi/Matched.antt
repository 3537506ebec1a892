-- ===== src/ReadApi/Matched.antt =====
-- What the filters of the listings ask for.
use service_of_import.Prelude.{
  ℕ, ◌<◌, Text, text_eq, text_eq_iff, Bool, true, false, ◌||◌, Option, none, some, [], ◌∷◌, ◌++◌,
  ◌==◌, ==_iff, ◌≡◌, refl, ap, sym, ◌∙◌, arith, ◌⊎◌, inl, inr, Bool-cases, ◌↔◌,
}
use service_of_import.Database.{CatalogueRow}
use service_of_import.ReadApi.{
  StockReadModel, StockFilters, stock_filter, is_prefix, contains, if_given, icontains,
  catalogue_filter,
}

-- The second text is the first one between two others.
abbrev pub IsInfix : Text → Text → Type 0
IsInfix s t = (front : Text) × (back : Text) × (t ≡ front ++ (s ++ back))

abbrev pub Given {ℓ} : {A : Type ℓ} → Option A → (A → Type 0) → Type 0
Given none P = Unit
Given (some a) P = P a

-- The row has the key and the text that the client asks for, in its key or its name and whatever the
-- case of the letters.
pub record IsMatch (lower : Text → Text) (key query : Option Text) (r : CatalogueRow) : Type 0 where
  pub has_key : Given key (λ k. r.key ≡ k)
  pub has_text :
      Given query (λ q. IsInfix (lower q) (lower r.key) ⊎ IsInfix (lower q) (lower r.name))

-- The row has the ids, the code and the SKU that the client asks for, and a stock unless the client asks
-- for empty ones too.
pub record IsStockMatch (f : StockFilters) (r : StockReadModel) : Type 0 where
  pub warehouse_id : Given f.warehouse_id (λ i. r.warehouse_id ≡ i)
  pub warehouse_code : Given f.warehouse_code (λ code. r.warehouse_code ≡ code)
  pub product_id : Given f.product_id (λ i. r.product_id ≡ i)
  pub sku : Given f.sku (λ sku. r.sku ≡ sku)
  pub in_stock : f.include_zero ≡ false → 0 < r.quantity

is_prefix-infix : (s t : Text) → is_prefix s t ≡ true → (back : Text) × (t ≡ s ++ back)
is_prefix-infix [] t h = (t, refl)
is_prefix-infix (c ∷ s) [] h = absurd (ground arith)
is_prefix-infix (c ∷ s) (d ∷ t) h =
    let same : c ≡ d = ground (arith, ==_iff c d) in
    let (back, e) = is_prefix-infix s t (ground arith) in
    (back, ap (λ x. x ∷ t) (sym same) ∙ ap (λ l. c ∷ l) e)

is_prefix-append : (s back : Text) → is_prefix s (s ++ back) ≡ true
is_prefix-append [] back = refl
is_prefix-append (c ∷ s) back = ground (arith, is_prefix-append s back, ==_iff c c)

contains-infix : (s t : Text) → contains s t ≡ true → IsInfix s t
unfolding contains
contains-infix s [] h = let (back, e) = is_prefix-infix s [] h in ([], back, e)
contains-infix s (d ∷ t) h = elim (Bool-cases (is_prefix s (d ∷ t))) [
  | inl e ↦ let (back, f) = is_prefix-infix s (d ∷ t) e in ([], back, f)
  | inr e ↦
      let (front, back, f) = contains-infix s t (ground arith) in
      (d ∷ front, back, ap (λ l. d ∷ l) f)
]

contains-front : (front s back : Text) → contains s (front ++ (s ++ back)) ≡ true
unfolding contains
contains-front [] [] [] = refl
contains-front [] [] (d ∷ back) = refl
contains-front [] (c ∷ s) back = ground (arith, is_prefix-append (c ∷ s) back)
contains-front (d ∷ front) s back = ground (arith, contains-front front s back)

contains_iff : (s t : Text) → contains s t ≡ true ↔ IsInfix s t
contains_iff s t =
    (contains-infix s t, λ (front, back, e). ap (contains s) e ∙ contains-front front s back)

if_given_iff {ℓ} :
    {A : Type ℓ} (o : Option A) (p : A → Bool) (P : A → Type 0)
    → ((a : A) → p a ≡ true ↔ P a)
    → if_given o p ≡ true ↔ Given o P
if_given_iff none p P h = (λ e. tt, λ e. refl)
if_given_iff (some a) p P h = h a

has_text_iff :
    (lower : Text → Text) (r : CatalogueRow) (q : Text)
    → (icontains lower r.key q || icontains lower r.name q) ≡ true
      ↔ (IsInfix (lower q) (lower r.key) ⊎ IsInfix (lower q) (lower r.name))
has_text_iff lower r q =
    let in_key = contains_iff (lower q) (lower r.key) in
    let in_name = contains_iff (lower q) (lower r.name) in
    (
      λ e. elim (Bool-cases (contains (lower q) (lower r.key))) [
        | inl f ↦ inl (in_key.0 f)
        | inr f ↦ inr (in_name.0 (ground arith))
      ],
      λ o. elim o [
        | inl i ↦ let f = in_key.1 i in ground arith
        | inr i ↦ let f = in_name.1 i in ground arith
      ],
    )

pub catalogue_filter_iff :
    (lower : Text → Text) (key query : Option Text) (r : CatalogueRow)
    → catalogue_filter lower key query r ≡ true ↔ IsMatch lower key query r
catalogue_filter_iff lower key query r =
    let p = λ (k : Text). text_eq r.key k in
    let q = λ (q : Text). icontains lower r.key q || icontains lower r.name q in
    let a = if_given_iff key p (λ k. r.key ≡ k) (λ k. text_eq_iff r.key k) in
    let b =
      if_given_iff query q (λ q. IsInfix (lower q) (lower r.key) ⊎ IsInfix (lower q) (lower r.name))
        (has_text_iff lower r) in
    (
      λ e.
          let key_found : if_given key p ≡ true = ground arith in
          let text_found : if_given query q ≡ true = ground arith in
          record { has_key = a.0 key_found; has_text = b.0 text_found },
      λ m. let key_found = a.1 m.has_key in let text_found = b.1 m.has_text in ground arith,
    )

pub stock_filter_iff :
    (f : StockFilters) (r : StockReadModel) → stock_filter f r ≡ true ↔ IsStockMatch f r
stock_filter_iff f r =
    let p = λ (i : ℕ). r.warehouse_id == i in
    let q = λ (code : Text). text_eq r.warehouse_code code in
    let s = λ (i : ℕ). r.product_id == i in
    let t = λ (sku : Text). text_eq r.sku sku in
    let a =
      if_given_iff f.warehouse_id p (λ i. r.warehouse_id ≡ i) (λ i. ==_iff r.warehouse_id i) in
    let b =
      if_given_iff f.warehouse_code q (λ code. r.warehouse_code ≡ code)
        (λ code. text_eq_iff r.warehouse_code code) in
    let c = if_given_iff f.product_id s (λ i. r.product_id ≡ i) (λ i. ==_iff r.product_id i) in
    let d = if_given_iff f.sku t (λ sku. r.sku ≡ sku) (λ sku. text_eq_iff r.sku sku) in
    (
      λ e.
          let a' : if_given f.warehouse_id p ≡ true = ground arith in
          let b' : if_given f.warehouse_code q ≡ true = ground arith in
          let c' : if_given f.product_id s ≡ true = ground arith in
          let d' : if_given f.sku t ≡ true = ground arith in
          record {
            warehouse_id = a.0 a';
            warehouse_code = b.0 b';
            product_id = c.0 c';
            sku = d.0 d';
            in_stock = λ z. ground (arith, ==_iff r.quantity 0);
          },
      λ m.
          let a' = a.1 m.warehouse_id in
          let b' = b.1 m.warehouse_code in
          let c' = c.1 m.product_id in
          let d' = d.1 m.sku in let in_stock = m.in_stock in ground (arith, ==_iff r.quantity 0),
    )
