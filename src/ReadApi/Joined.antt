-- ===== src/ReadApi/Joined.antt =====
-- The join of the balances with the catalogues.
use service_of_import.Prelude.{
  ℕ, ◌≡◌, refl, sym, ap, ap₂, ◌∙◌, none, some, List, [], ◌∷◌, map, filter, ◌==◌, ==_iff, All, arith,
  Bool-cases, inl, inr,
}
use service_of_import.Database.{CatalogueRow, StockBalance}
use service_of_import.ReadApi.{StockReadModel, find_row, with_id, join_balance, stock_rows}

-- The primary key of a catalogue.
abbrev pub IsUnique : List CatalogueRow → Type 0
IsUnique [] = Unit
IsUnique (r ∷ rs) = (find_row r.id rs ≡ none) × IsUnique rs

-- The foreign keys of the balances.
abbrev pub IsLinked : List CatalogueRow → List CatalogueRow → List StockBalance → Type 0
IsLinked warehouses products balances =
    All
      (λ b.
        ((w : CatalogueRow) × (find_row b.warehouse_id warehouses ≡ some w))
        × ((p : CatalogueRow) × (find_row b.product_id products ≡ some p)))
      balances

with_id-none : (i : ℕ) (rs : List CatalogueRow) → find_row i rs ≡ none → with_id i rs ≡ []
unfolding find_row filter
with_id-none i [] h = refl
with_id-none i (r ∷ rs) h = elim (Bool-cases (r.id == i)) [
  | inl e ↦ absurd (ground arith)
  | inr e ↦ rw e (with_id-none i rs (ground arith))
]

with_id_one :
    (i : ℕ) (rs : List CatalogueRow) (w : CatalogueRow)
    → IsUnique rs
    → find_row i rs ≡ some w
    → (with_id i rs ≡ w ∷ []) × (w.id ≡ i)
unfolding find_row filter
with_id_one i [] w u h = absurd (ground arith)
with_id_one i (r ∷ rs) w u h = elim (Bool-cases (r.id == i)) [
  | inl e ↦
      let id : r.id ≡ i = (==_iff r.id i).0 e in
      let same : r ≡ w = ground arith in
      (
        rw e (ap₂ ◌∷◌ same (with_id-none i rs (ap (λ j. find_row j rs) (sym id) ∙ u.0))),
        ap (λ x. x.id) (sym same) ∙ id,
      )
  | inr e ↦ rw e (with_id_one i rs w u.1 (ground arith))
]

-- What a balance and a row of the listing say alike.
abbrev pub balance_key : StockBalance → ℕ × ℕ × ℕ × ℕ × ℕ
balance_key b = (b.warehouse_id, b.product_id, b.quantity, b.created_at, b.updated_at)

abbrev pub row_key : StockReadModel → ℕ × ℕ × ℕ × ℕ × ℕ
row_key r = (r.warehouse_id, r.product_id, r.quantity, r.created_at, r.updated_at)

-- The row names the warehouse and the product that it has the ids of.
pub record IsDescribed (warehouses products : List CatalogueRow) (r : StockReadModel) : Type 0 where
  pub warehouse : CatalogueRow
  pub product : CatalogueRow
  pub in_warehouses : find_row r.warehouse_id warehouses ≡ some warehouse
  pub in_products : find_row r.product_id products ≡ some product
  pub names :
      ((r.warehouse_code ≡ warehouse.key) × (r.warehouse_name ≡ warehouse.name))
      × ((r.sku ≡ product.key) × (r.product_name ≡ product.name))

-- With primary and foreign keys as the schema demands them, the joined rows are the balances, one row
-- for each and in their order, with the code and the names of its warehouse and its product.
pub stock_rows-IsDescribed :
    (warehouses products : List CatalogueRow) (balances : List StockBalance)
    → IsUnique warehouses
    → IsUnique products
    → IsLinked warehouses products balances
    → (map row_key (stock_rows warehouses products balances) ≡ map balance_key balances)
      × All (IsDescribed warehouses products) (stock_rows warehouses products balances)
unfolding stock_rows join_balance
stock_rows-IsDescribed warehouses products [] u v h = (refl, tt)
stock_rows-IsDescribed warehouses products (b ∷ balances) u v (((w, fw), (p, fp)), h) =
    let (one_w, id_w) = with_id_one b.warehouse_id warehouses w u fw in
    let (one_p, id_p) = with_id_one b.product_id products p v fp in
    let (keys, described) = stock_rows-IsDescribed warehouses products balances u v h in
    rw (one_w, one_p)
      (
        ap₂ ◌∷◌ (ap₂ (λ i j. (i, j, b.quantity, b.created_at, b.updated_at)) id_w id_p) keys,
        (
          record {
            warehouse = w;
            product = p;
            in_warehouses = ap (λ i. find_row i warehouses) id_w ∙ fw;
            in_products = ap (λ i. find_row i products) id_p ∙ fp;
            names = ((refl, refl), (refl, refl));
          },
          described,
        ),
      )
