-- ===== src/Apply/Snapshot.antt =====
-- What a report means for the stocks: a full snapshot of the warehouses that it names.
use service_of_import.Prelude.{
  ℕ, ◌<◌, Text, ◌≡◌, refl, Option, none, some, List, [], map, arith, if◌then◌else◌, Option-cases,
  inl, inr,
}
use service_of_import.Errors.{Result, ok, raised}
use service_of_import.Database.{Db, Catalogue, StockBalance, ReportStagingRow}
use service_of_import.Stocks.{
  calculate_counters, Pair, Counters, upsert, distinct_on, warehouse_named, product_named,
  upsert_warehouses, upsert_products, id_of, explicit_pairs, balance_of, put_balances, is_missing,
  zeroed, zero_missing_stocks, apply_explicit_stocks,
}
use service_of_import.Apply.{ApplyEnv, apply_stocks}
use service_of_import.Stocks.Catalogues.{
  IsCatalogue, upsert-IsCatalogue, id_of-upsert-none, id_of-upsert-cases,
}
use service_of_import.Stocks.Balances.{
  or_else, balance_of-put_balances, zeroed_if, balance_of-zero_missing,
}
use service_of_import.Stocks.Resolve.{
  row_quantity, has_warehouse, pair_quantity-explicit_pairs, is_affected-has_warehouse,
  has_key-warehouse_named, has_key-product_named, row_quantity_absent,
}

-- The catalogues are well formed, and a balance has ids that their sequences gave out.
pub record IsDb (db : Db) : Type 0 where
  pub warehouses : IsCatalogue db.warehouses
  pub products : IsCatalogue db.products
  pub foreign_keys :
      (w p q : ℕ)
      → balance_of w p db.stock_balances ≡ some q
      → (w < db.warehouses.next_id) × (p < db.products.next_id)

abbrev pub stock_at : Option ℕ → Option ℕ → List StockBalance → Option ℕ
stock_at none p bs = none
stock_at (some w) none bs = none
stock_at (some w) (some p) bs = balance_of w p bs

-- The quantity in stock of a product in a warehouse, by SKU and code.
unfoldable pub stock : Text → Text → Db → Option ℕ
stock code sku db =
    stock_at (id_of code db.warehouses.rows) (id_of sku db.products.rows) db.stock_balances

-- The quantity after a report: the one that it gives; 0 for what it does not give of a warehouse
-- that it names; the old one elsewhere.
unfoldable pub snapshot : Text → Text → List ReportStagingRow → Option ℕ → Option ℕ
snapshot code sku ss old =
    or_else (row_quantity code sku ss) (zeroed_if (has_warehouse code ss) old)

abbrev pub Agree : Db → Db → Type 0
Agree db db' =
    (db'.reports ≡ db.reports)
    × (db'.staging_rows ≡ db.staging_rows)
    × (db'.report_errors ≡ db.report_errors)

abbrev pub warehouses_after : ℕ → List ReportStagingRow → Db → Catalogue
warehouses_after now ss db = upsert now (distinct_on (map warehouse_named ss)) db.warehouses

abbrev pub products_after : ℕ → List ReportStagingRow → Db → Catalogue
products_after now ss db = upsert now (distinct_on (map product_named ss)) db.products

-- The tables that `apply_stocks` returns, from the balances that its upsert returns.
abbrev pub stocks_after : ℕ → List ReportStagingRow → Db → List StockBalance → Db
stocks_after now ss db bs =
    let ws = warehouses_after now ss db in
    let ps = products_after now ss db in
    record db {
      warehouses = ws;
      products = ps;
      stock_balances =
          map
            (λ b.
              if is_missing ws.rows ss (explicit_pairs ws.rows ps.rows ss) b
              then zeroed now b
              else b)
            bs;
    }

abbrev pub pairs_after : ℕ → List ReportStagingRow → Db → List Pair
pairs_after now ss db =
    explicit_pairs (warehouses_after now ss db).rows (products_after now ss db).rows ss

abbrev pub counters_of : ℕ → List ReportStagingRow → Db → Counters
counters_of now ss db = calculate_counters ss (upsert_products now ss (upsert_warehouses now ss db))

module _ (env : ApplyEnv) (ss : List ReportStagingRow) (db : Db) where
  abbrev pub balances_after : Result (List StockBalance)
  balances_after = put_balances env.now [] (pairs_after env.now ss db) db.stock_balances

  after_put :
      (r : Result (List StockBalance)) (db' : Db) (counters : Counters)
      → balances_after ≡ r
      → apply_stocks env ss db ≡ ok (counters, db')
      → (bs : List StockBalance) × (balances_after ≡ ok bs)
        × (db' ≡ stocks_after env.now ss db bs)
        × (counters ≡ counters_of env.now ss db)
  unfolding apply_stocks apply_explicit_stocks upsert_warehouses upsert_products zero_missing_stocks
  after_put (raised e) db' counters er h = absurd (ground arith)
  after_put (ok bs) db' counters er h = (bs, er, ground arith, ground arith)

  pub apply_stocks-ok :
      (db' : Db) (counters : Counters)
      → apply_stocks env ss db ≡ ok (counters, db')
      → (bs : List StockBalance) × (balances_after ≡ ok bs)
        × (db' ≡ stocks_after env.now ss db bs)
        × (counters ≡ counters_of env.now ss db)
  apply_stocks-ok db' counters h = after_put balances_after db' counters refl h

  pub balance_of-stock :
      (code sku : Text) (w p : ℕ)
      → IsDb db
      → id_of code (warehouses_after env.now ss db).rows ≡ some w
      → id_of sku (products_after env.now ss db).rows ≡ some p
      → balance_of w p db.stock_balances ≡ stock code sku db
  unfolding stock
  balance_of-stock code sku w p h ew ep =
      let ws = map warehouse_named ss in
      let ps = map product_named ss in
      elim (Option-cases (balance_of w p db.stock_balances)) [
        | inl e ↦ elim (id_of-upsert-cases env.now ws db.warehouses code w ew) [
          | inr f ↦ ground (arith, f.0)
          | inl f ↦ elim (id_of-upsert-cases env.now ps db.products sku p ep) [
            | inl g ↦ ground arith
            | inr g ↦ ground (arith, g.0)
          ]
        ]
        | inr (q, e) ↦ elim (id_of-upsert-cases env.now ws db.warehouses code w ew) [
          | inr f ↦ absurd (omega (arith, f.1, (h.foreign_keys w p q e).0))
          | inl f ↦ elim (id_of-upsert-cases env.now ps db.products sku p ep) [
            | inl g ↦ ground arith
            | inr g ↦ absurd (omega (arith, g.1, (h.foreign_keys w p q e).1))
          ]
        ]
      ]

  pub stock-stocks_after :
      (code sku : Text) (bs : List StockBalance)
      → IsDb db
      → balances_after ≡ ok bs
      → stock code sku (stocks_after env.now ss db bs) ≡ snapshot code sku ss (stock code sku db)
  unfolding stock snapshot
  stock-stocks_after code sku bs h e =
      let rs = map warehouse_named ss in
      let ws = warehouses_after env.now ss db in
      let ps = products_after env.now ss db in
      let hw = upsert-IsCatalogue env.now (distinct_on rs) db.warehouses h.warehouses in
      let hp =
        upsert-IsCatalogue env.now (distinct_on (map product_named ss)) db.products h.products in
      elim (Option-cases (id_of code ws.rows)) [
        | inl f ↦
            let (gone, no_key) = id_of-upsert-none env.now rs db.warehouses code f in
            let absent =
              row_quantity_absent code sku ss (ground (arith, has_key-warehouse_named code ss)) in
            ground (arith, absent)
        | inr (w, f) ↦ elim (Option-cases (id_of sku ps.rows)) [
          | inl g ↦
              let (gone, no_key) =
                id_of-upsert-none env.now (map product_named ss) db.products sku g in
              let absent =
                row_quantity_absent code sku ss (ground (arith, has_key-product_named sku ss)) in
              ground (arith, absent)
          | inr (p, g) ↦ ground (
            arith,
            balance_of-zero_missing env.now w p ws.rows ss (pairs_after env.now ss db) bs,
            balance_of-put_balances env.now w p [] (pairs_after env.now ss db) db.stock_balances bs
                e,
            pair_quantity-explicit_pairs ws ps code sku w p ss hw hp f g,
            is_affected-has_warehouse ws ps code sku w p ss hw f,
            balance_of-stock code sku w p h f g,
          )
        ]
      ]
