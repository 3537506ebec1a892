-- ===== src/ReadApi.antt =====
-- app/services/read_api.py: `ReadApiService`. The collation of the database, which orders texts, and
-- its `lower` are arguments. `icontains` with `autoescape` tests for a substring, whatever characters
-- the substring has.
pub mod Ordered
pub mod Joined
pub mod Matched
pub mod Listed
pub mod Catalogues
pub mod Tests
use service_of_import.Prelude.{
  ℕ, Text, text_eq, Bool, true, false, ◌&&◌, ◌||◌, not, Option, none, some, List, [], ◌∷◌, ◌++◌,
  map, filter, ◌==◌, ltb, leb, if◌then◌else◌,
}
use service_of_import.Errors.{Exn, Result, ok, raised, warehouse_not_found, product_not_found}
use service_of_import.Database.{Db, CatalogueRow, StockBalance}
use service_of_import.Effects.{Eff, ◌>>=◌}
use service_of_import.Steps.{World, Outside, transaction}
use service_of_import.Paging.{Page, Sort, selected}
use service_of_import.Registration.{outcome}

pub record StockReadModel : Type 0 where
  pub warehouse_id : ℕ
  pub warehouse_code : Text
  pub warehouse_name : Text
  pub product_id : ℕ
  pub sku : Text
  pub product_name : Text
  pub quantity : ℕ
  pub created_at : ℕ
  pub updated_at : ℕ

abbrev pub is_prefix : Text → Text → Bool
is_prefix [] t = true
is_prefix (c ∷ s) [] = false
is_prefix (c ∷ s) (d ∷ t) = c == d && is_prefix s t

-- Whether the second text contains the first.
unfoldable pub contains : Text → Text → Bool
contains s [] = is_prefix s []
contains s (d ∷ t) = is_prefix s (d ∷ t) || contains s t

-- A filter that is there only if its argument is given.
abbrev pub if_given {ℓ} : {A : Type ℓ} → Option A → (A → Bool) → Bool
if_given none p = true
if_given (some a) p = p a

-- The next column of an ORDER BY decides where a text or a number ties.
abbrev pub text_order : (Text → Text → Bool) → Text → Text → Bool → Bool
text_order text_le s t tie = if text_eq s t then tie else text_le s t

abbrev pub number_order : ℕ → ℕ → Bool → Bool
number_order m n tie = ltb m n || (m == n && tie)

-- `session.get`, by the primary key.
unfoldable pub find_row : ℕ → List CatalogueRow → Option CatalogueRow
find_row i [] = none
find_row i (r ∷ rs) = let rest = find_row i rs in if r.id == i then some r else rest

abbrev pub row_found : Exn → Option CatalogueRow → Result CatalogueRow
row_found missing none = raised missing
row_found missing (some row) = ok row

unfoldable pub get_warehouse : Outside → ℕ → Eff World CatalogueRow
unfolding find_row
get_warehouse out i =
    transaction out (λ now db. (row_found warehouse_not_found (find_row i db.warehouses.rows), db))
    >>= outcome

unfoldable pub get_product : Outside → ℕ → Eff World CatalogueRow
unfolding find_row
get_product out i =
    transaction out (λ now db. (row_found product_not_found (find_row i db.products.rows), db))
    >>= outcome

-- The rows of a JOIN on `id`.
abbrev pub with_id : ℕ → List CatalogueRow → List CatalogueRow
with_id i rows = filter (λ r. r.id == i) rows

abbrev pub stock_read_model : StockBalance → CatalogueRow → CatalogueRow → StockReadModel
stock_read_model b w p = record {
  warehouse_id = w.id;
  warehouse_code = w.key;
  warehouse_name = w.name;
  product_id = p.id;
  sku = p.key;
  product_name = p.name;
  quantity = b.quantity;
  created_at = b.created_at;
  updated_at = b.updated_at;
}

unfoldable pub join_balance :
    StockBalance → List CatalogueRow → List CatalogueRow → List StockReadModel
join_balance b [] products = []
join_balance b (w ∷ warehouses) products =
    map (stock_read_model b w) products ++ join_balance b warehouses products

-- `stock_balances JOIN warehouses JOIN products`
unfoldable pub stock_rows :
    List CatalogueRow → List CatalogueRow → List StockBalance → List StockReadModel
unfolding join_balance
stock_rows warehouses products [] = []
stock_rows warehouses products (b ∷ balances) =
    join_balance b (with_id b.warehouse_id warehouses) (with_id b.product_id products)
    ++ stock_rows warehouses products balances

-- The filters of `list_stocks`.
pub record StockFilters : Type 0 where
  pub warehouse_id : Option ℕ
  pub warehouse_code : Option Text
  pub product_id : Option ℕ
  pub sku : Option Text
  pub include_zero : Bool

abbrev pub stock_filter : StockFilters → StockReadModel → Bool
stock_filter f r =
    if_given f.warehouse_id (λ i. r.warehouse_id == i)
    && (if_given f.warehouse_code (λ code. text_eq r.warehouse_code code)
        && (if_given f.product_id (λ i. r.product_id == i)
            && (if_given f.sku (λ sku. text_eq r.sku sku)
                && (f.include_zero || not (r.quantity == 0)))))

module _ (lower : Text → Text) where
  abbrev pub icontains : Text → Text → Bool
  icontains column query = contains (lower query) (lower column)

  -- The filters of `list_warehouses` and of `list_products`.
  abbrev pub catalogue_filter : Option Text → Option Text → CatalogueRow → Bool
  catalogue_filter key query r =
      if_given key (λ k. text_eq r.key k)
      && if_given query (λ q. icontains r.key q || icontains r.name q)

module _ (text_le : Text → Text → Bool) where
  -- `ORDER BY code, id` and `ORDER BY sku, id`
  abbrev pub by_key : CatalogueRow → CatalogueRow → Bool
  by_key x y = text_order text_le x.key y.key (leb x.id y.id)

  -- `ORDER BY` code, SKU, and the two ids
  abbrev pub by_codes : StockReadModel → StockReadModel → Bool
  by_codes x y = text_order text_le x.warehouse_code y.warehouse_code (
      text_order text_le x.sku y.sku
        (number_order x.warehouse_id y.warehouse_id (leb x.product_id y.product_id)))

  unfoldable pub list_stocks :
      Sort StockReadModel → Outside → StockFilters → ℕ → ℕ → Eff World (Page StockReadModel)
  unfolding stock_rows
  list_stocks sort out filters limit offset w =
      transaction out
        (λ now db. (
          selected (stock_filter filters) (sort by_codes w.calls) limit offset
              (stock_rows db.warehouses.rows db.products.rows db.stock_balances),
          db,
        ))
        w

module _ (text_le : Text → Text → Bool) (lower : Text → Text) (sort : Sort CatalogueRow) where
  unfoldable pub list_warehouses :
      Outside → Option Text → Option Text → ℕ → ℕ → Eff World (Page CatalogueRow)
  unfolding contains
  list_warehouses out code query limit offset w =
      transaction out
        (λ now db. (
          selected (catalogue_filter lower code query) (sort (by_key text_le) w.calls) limit offset
              db.warehouses.rows,
          db,
        ))
        w

  unfoldable pub list_products :
      Outside → Option Text → Option Text → ℕ → ℕ → Eff World (Page CatalogueRow)
  unfolding contains
  list_products out sku query limit offset w =
      transaction out
        (λ now db. (
          selected (catalogue_filter lower sku query) (sort (by_key text_le) w.calls) limit offset
              db.products.rows,
          db,
        ))
        w
