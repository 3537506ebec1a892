-- ===== src/Stocks/Resolve.antt =====
-- The joins of staging rows with the catalogues, read by codes and SKUs.
use service_of_import.Prelude.{
  ℕ, Text, text_eq, text_eq_iff, ◌≡◌, refl, ◌∙◌, Bool, true, false, ◌&&◌, Option, none, some, List,
  [], ◌∷◌, map, any, arith, if◌then◌else◌, Option-cases, inl, inr,
}
use service_of_import.Database.{Catalogue, ReportStagingRow}
use service_of_import.Stocks.{
  warehouse_named, product_named, Pair, id_of, join_ids, explicit_pairs, is_id, is_affected,
}
use service_of_import.Stocks.Catalogues.{IsCatalogue, has_key}
use service_of_import.Stocks.Balances.{or_else, pair_quantity}

abbrev pub is_row : Text → Text → ReportStagingRow → Bool
is_row code sku s = text_eq s.warehouse_code code && text_eq s.sku sku

-- The quantity that a report gives for a warehouse and a product: that of the last of its rows.
unfoldable pub row_quantity : Text → Text → List ReportStagingRow → Option ℕ
row_quantity code sku [] = none
row_quantity code sku (s ∷ ss) =
    or_else (row_quantity code sku ss) (if is_row code sku s then some s.quantity else none)

-- Whether a report names a warehouse.
abbrev pub has_warehouse : Text → List ReportStagingRow → Bool
has_warehouse code ss = any (λ s. text_eq s.warehouse_code code) ss

is_id-id_of :
    (c : Catalogue) (code k : Text) (w : ℕ)
    → IsCatalogue c
    → id_of code c.rows ≡ some w
    → is_id w (id_of k c.rows) ≡ text_eq k code
is_id-id_of c code k w h e =
    let injective : id_of k c.rows ≡ some w → k ≡ code = λ f. h.injective k code w f e in
    elim (text_eq k code) as (λ b. text_eq k code ≡ b → is_id w (id_of k c.rows) ≡ b) [
      | true ↦ λ f. ground (arith, (text_eq_iff k code).0 f)
      | false ↦ λ f. ground (arith, injective, text_eq_iff k code)
    ]
      refl

pub pair_quantity-join_ids :
    (w p q : ℕ) (a b : Option ℕ) (xs : List Pair)
    → pair_quantity w p (join_ids a b q xs)
      ≡ or_else (pair_quantity w p xs) (if is_id w a && is_id p b then some q else none)
unfolding pair_quantity
pair_quantity-join_ids w p q none b xs = ground arith
pair_quantity-join_ids w p q (some i) none xs = ground arith
pair_quantity-join_ids w p q (some i) (some j) xs = refl

module _ (ws ps : Catalogue) (code sku : Text) (w p : ℕ) where
  pub pair_quantity-explicit_pairs :
      (ss : List ReportStagingRow)
      → IsCatalogue ws
      → IsCatalogue ps
      → id_of code ws.rows ≡ some w
      → id_of sku ps.rows ≡ some p
      → pair_quantity w p (explicit_pairs ws.rows ps.rows ss) ≡ row_quantity code sku ss
  unfolding explicit_pairs row_quantity pair_quantity
  pair_quantity-explicit_pairs [] hw hp ew ep = refl
  pair_quantity-explicit_pairs (s ∷ ss) hw hp ew ep =
      let a = id_of s.warehouse_code ws.rows in
      let b = id_of s.sku ps.rows in
      pair_quantity-join_ids w p s.quantity a b (explicit_pairs ws.rows ps.rows ss)
      ∙ (rw (
        pair_quantity-explicit_pairs ss hw hp ew ep,
        is_id-id_of ws code s.warehouse_code w hw ew,
        is_id-id_of ps sku s.sku p hp ep,
      ))

  pub is_affected-has_warehouse :
      (ss : List ReportStagingRow)
      → IsCatalogue ws
      → id_of code ws.rows ≡ some w
      → is_affected ws.rows ss w ≡ has_warehouse code ss
  unfolding is_affected any
  is_affected-has_warehouse [] hw ew = refl
  is_affected-has_warehouse (s ∷ ss) hw ew =
      rw (is_affected-has_warehouse ss hw ew, is_id-id_of ws code s.warehouse_code w hw ew)

pub has_key-warehouse_named :
    (code : Text) (ss : List ReportStagingRow)
    → has_key code (map warehouse_named ss) ≡ has_warehouse code ss
unfolding any
has_key-warehouse_named code [] = refl
has_key-warehouse_named code (s ∷ ss) = rw (has_key-warehouse_named code ss)

abbrev pub has_product : Text → List ReportStagingRow → Bool
has_product sku ss = any (λ s. text_eq s.sku sku) ss

pub has_key-product_named :
    (sku : Text) (ss : List ReportStagingRow)
    → has_key sku (map product_named ss) ≡ has_product sku ss
unfolding any
has_key-product_named sku [] = refl
has_key-product_named sku (s ∷ ss) = rw (has_key-product_named sku ss)

pub row_quantity-some :
    (code sku : Text) (ss : List ReportStagingRow) (q : ℕ)
    → row_quantity code sku ss ≡ some q
    → (has_warehouse code ss ≡ true) × (has_product sku ss ≡ true)
unfolding row_quantity any
row_quantity-some code sku [] q h = absurd (ground arith)
row_quantity-some code sku (s ∷ ss) q h = elim (Option-cases (row_quantity code sku ss)) [
  | inl e ↦ (ground arith, ground arith)
  | inr (r, e) ↦
      let ih = row_quantity-some code sku ss r e in (ground (arith, ih.0), ground (arith, ih.1))
]

pub row_quantity_absent :
    (code sku : Text) (ss : List ReportStagingRow)
    → (has_warehouse code ss && has_product sku ss) ≡ false
    → row_quantity code sku ss ≡ none
row_quantity_absent code sku ss h = elim (Option-cases (row_quantity code sku ss)) [
  | inl e ↦ e
  | inr (q, e) ↦
      let given = row_quantity-some code sku ss q e in absurd (ground (arith, given.0, given.1))
]
