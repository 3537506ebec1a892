-- ===== src/Apply/Invariant.antt =====
-- The catalogues stay well formed, and the ids of the balances among those given out.
use service_of_import.Prelude.{ℕ, ◌<◌, ◌≡◌, some, List, [], ◌∷◌, map, arith, Option-cases, inl, inr}
use service_of_import.Errors.{ok}
use service_of_import.Database.{Db, Catalogue, StockBalance, ReportStagingRow}
use service_of_import.Stocks.{
  distinct_on, warehouse_named, product_named, id_of, explicit_pairs, balance_of,
}
use service_of_import.Apply.{ApplyEnv}
use service_of_import.Stocks.Catalogues.{IsCatalogue, upsert-IsCatalogue, next_id-upsert_le}
use service_of_import.Stocks.Balances.{
  pair_quantity, balance_of-put_balances, balance_of-zero_missing,
}
use service_of_import.Stocks.Resolve.{pair_quantity-join_ids}
use service_of_import.Apply.Snapshot.{
  IsDb, stocks_after, balances_after, pairs_after, warehouses_after, products_after,
}

-- A pair has the ids of rows of the catalogues.
explicit_pairs_below :
    (ws ps : Catalogue) (ss : List ReportStagingRow) (w p q : ℕ)
    → IsCatalogue ws
    → IsCatalogue ps
    → pair_quantity w p (explicit_pairs ws.rows ps.rows ss) ≡ some q
    → (w < ws.next_id) × (p < ps.next_id)
unfolding explicit_pairs pair_quantity
explicit_pairs_below ws ps [] w p q hw hp e = absurd (ground arith)
explicit_pairs_below ws ps (s ∷ ss) w p q hw hp e =
    let a = id_of s.warehouse_code ws.rows in
    let b = id_of s.sku ps.rows in
    let xs = explicit_pairs ws.rows ps.rows ss in
    elim (Option-cases (pair_quantity w p xs)) [
      | inr (r, f) ↦ explicit_pairs_below ws ps ss w p r hw hp f
      | inl f ↦
          let step = pair_quantity-join_ids w p s.quantity a b xs in
          let known_w : w < ws.next_id = ground (arith, step, hw.below s.warehouse_code w) in
          let known_p : p < ps.next_id = ground (arith, step, hp.below s.sku p) in
          (known_w, known_p)
    ]

pub stocks_after-IsDb :
    (env : ApplyEnv) (ss : List ReportStagingRow) (db : Db) (bs : List StockBalance)
    → IsDb db
    → balances_after env ss db ≡ ok bs
    → IsDb (stocks_after env.now ss db bs)
stocks_after-IsDb env ss db bs h e =
    let now = env.now in
    let wn = distinct_on (map warehouse_named ss) in
    let pn = distinct_on (map product_named ss) in
    let ws = warehouses_after now ss db in
    let ps = products_after now ss db in
    let hw = upsert-IsCatalogue now wn db.warehouses h.warehouses in
    let hp = upsert-IsCatalogue now pn db.products h.products in
    record {
      warehouses = hw;
      products = hp;
      foreign_keys = λ w p q f. elim (Option-cases (pair_quantity w p (pairs_after now ss db))) [
        | inr (r, g) ↦ explicit_pairs_below ws ps ss w p r hw hp g
        | inl g ↦ elim (Option-cases (balance_of w p db.stock_balances)) [
          | inl e' ↦ absurd (
              ground (
                arith,
                balance_of-zero_missing now w p ws.rows ss (pairs_after now ss db) bs,
                balance_of-put_balances now w p [] (pairs_after now ss db) db.stock_balances bs e,
              ))
          | inr (old, e') ↦
              let (bw, bp) = h.foreign_keys w p old e' in
              (
                omega (arith, bw, next_id-upsert_le now wn db.warehouses),
                omega (arith, bp, next_id-upsert_le now pn db.products),
              )
        ]
      ];
    }
