-- ===== src/Apply/Linked.antt =====
-- Each balance refers to rows of the catalogues that are there.
use service_of_import.Prelude.{
  ℕ, Text, ◌≡◌, refl, some, List, [], ◌∷◌, map, arith, Option-cases, inl, inr, subst⁻¹,
}
use service_of_import.Errors.{Result, ok, raised}
use service_of_import.Database.{Db, CatalogueRow, StockBalance, ReportStagingRow}
use service_of_import.Stocks.{
  distinct_on, warehouse_named, product_named, id_of, explicit_pairs, balance_of, staging_of,
}
use service_of_import.Apply.{ApplyEnv, ApplyResult, apply, complete, in_transaction}
use service_of_import.Stocks.Catalogues.{id_of-upsert_kept}
use service_of_import.Stocks.Balances.{
  pair_quantity, balance_of-put_balances, balance_of-zero_missing,
}
use service_of_import.Stocks.Resolve.{pair_quantity-join_ids}
use service_of_import.Apply.Snapshot.{
  IsDb, stocks_after, balances_after, pairs_after, warehouses_after, products_after,
}
use service_of_import.Apply.Outcome.{apply-IsApplied}
use service_of_import.Apply.Atomic.{apply-IsDb}

-- A row of the table has the id.
abbrev pub IsRow : ℕ → List CatalogueRow → Type 0
IsRow i rows = (key : Text) × (id_of key rows ≡ some i)

-- The foreign keys of stock_balances: the warehouse and the product of each balance exist.
abbrev pub IsLinked : Db → Type 0
IsLinked db =
    (w p q : ℕ)
    → balance_of w p db.stock_balances ≡ some q
    → IsRow w db.warehouses.rows × IsRow p db.products.rows

explicit_pairs-IsRow :
    (ws ps : List CatalogueRow) (ss : List ReportStagingRow) (w p q : ℕ)
    → pair_quantity w p (explicit_pairs ws ps ss) ≡ some q
    → IsRow w ws × IsRow p ps
unfolding explicit_pairs pair_quantity
explicit_pairs-IsRow ws ps [] w p q e = absurd (ground arith)
explicit_pairs-IsRow ws ps (s ∷ ss) w p q e =
    let a = id_of s.warehouse_code ws in
    let b = id_of s.sku ps in
    let xs = explicit_pairs ws ps ss in
    elim (Option-cases (pair_quantity w p xs)) [
      | inr (r, f) ↦ explicit_pairs-IsRow ws ps ss w p r f
      | inl f ↦
          let step = pair_quantity-join_ids w p s.quantity a b xs in
          let known_w : a ≡ some w = ground (arith, step) in
          let known_p : b ≡ some p = ground (arith, step) in
          ((s.warehouse_code, known_w), (s.sku, known_p))
    ]

stocks_after-IsLinked :
    (env : ApplyEnv) (ss : List ReportStagingRow) (db : Db) (bs : List StockBalance)
    → IsLinked db
    → balances_after env ss db ≡ ok bs
    → IsLinked (stocks_after env.now ss db bs)
stocks_after-IsLinked env ss db bs h e w p q f =
    let now = env.now in
    let wn = distinct_on (map warehouse_named ss) in
    let pn = distinct_on (map product_named ss) in
    let ws = (warehouses_after now ss db).rows in
    let ps = (products_after now ss db).rows in
    elim (Option-cases (pair_quantity w p (pairs_after now ss db))) [
      | inr (r, g) ↦ explicit_pairs-IsRow ws ps ss w p r g
      | inl g ↦ elim (Option-cases (balance_of w p db.stock_balances)) [
        | inl e' ↦ absurd (
            ground (
              arith,
              balance_of-zero_missing now w p ws ss (pairs_after now ss db) bs,
              balance_of-put_balances now w p [] (pairs_after now ss db) db.stock_balances bs e,
            ))
        | inr (old, e') ↦
            let ((code, there_w), (sku, there_p)) = h w p old e' in
            (
              (code, id_of-upsert_kept now wn db.warehouses code w there_w),
              (sku, id_of-upsert_kept now pn db.products sku p there_p),
            )
      ]
    ]

IsLinked-in_transaction :
    (env : ApplyEnv) (i : ℕ) (db : Db) (r : Result (ApplyResult × Db))
    → IsLinked db
    → apply env i db ≡ in_transaction db r
    → IsLinked (in_transaction db r).1
unfolding complete
IsLinked-in_transaction env i db (raised e) h e' = h
IsLinked-in_transaction env i db (ok (result, db')) h e =
    let a = apply-IsApplied env i db db' result e in
    let ss = staging_of i db.staging_rows in
    subst⁻¹ IsLinked a.tables (stocks_after-IsLinked env ss db a.balances h a.put)

-- Every call of apply, whether it returns or raises, keeps the tables well formed: the ids of a catalogue
-- are below its sequence and differ for different keys, and the warehouse and the product of each
-- balance are rows of their tables.
pub apply-IsLinked :
    (env : ApplyEnv) (report_id : ℕ) (db : Db)
    → IsDb db
    → IsLinked db
    → IsDb (apply env report_id db).1 × IsLinked (apply env report_id db).1
unfolding apply
apply-IsLinked env i db h k = (apply-IsDb env i db h, IsLinked-in_transaction env i db _ k refl)
