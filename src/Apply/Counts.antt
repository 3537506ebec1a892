-- ===== src/Apply/Counts.antt =====
-- The counters of a report against the rules for one balance.
use service_of_import.Prelude.{
  ℕ, text_eq_refl, ◌≡◌, refl, ◌∙◌, ap, Bool, true, false, not, Option, none, some, List, [], ◌∷◌,
  All, any, map, count, is_some, arith,
}
use service_of_import.Errors.{ok}
use service_of_import.Database.{Db, CatalogueRow, StockBalance, ReportStagingRow}
use service_of_import.Stocks.{
  Pair, CounterKind, created, updated, zero_filled, classify_stock_change, id_of, explicit_pairs,
  balance_of, is_missing, is_affected, differs, calculate_counters, warehouse_named, product_named,
  distinct_on, upsert_products, upsert_warehouses, staging_of,
}
use service_of_import.Stocks.Catalogues.{id_of-upsert_given, has_key-distinct_on}
use service_of_import.Stocks.Balances.{pair_quantity, any-is_pair}
use service_of_import.Stocks.Resolve.{
  has_warehouse, has_product, has_key-warehouse_named, has_key-product_named,
}
use service_of_import.Apply.{ApplyEnv, ApplyResult, apply}
use service_of_import.Apply.Snapshot.{
  IsDb, stock, balance_of-stock, warehouses_after, products_after, pairs_after, counters_of,
}
use service_of_import.Apply.Outcome.{apply-IsApplied}

abbrev pub is_kind : CounterKind → Option CounterKind → Bool
is_kind k none = false
is_kind created (some created) = true
is_kind updated (some updated) = true
is_kind zero_filled (some zero_filled) = true
is_kind _ (some _) = false

abbrev NamedBy : List ReportStagingRow → ReportStagingRow → Type 0
NamedBy ss s = (has_warehouse s.warehouse_code ss ≡ true) × (has_product s.sku ss ≡ true)

NamedBy-more :
    (x : ReportStagingRow) (ss rest : List ReportStagingRow)
    → All (NamedBy ss) rest
    → All (NamedBy (x ∷ ss)) rest
unfolding any
NamedBy-more x ss [] h = tt
NamedBy-more x ss (s ∷ rest) h =
    ((ground (arith, h.0), ground (arith, h.0)), NamedBy-more x ss rest h.1)

All-NamedBy : (ss : List ReportStagingRow) → All (NamedBy ss) ss
unfolding any
All-NamedBy [] = tt
All-NamedBy (s ∷ ss) = (
  (ground (arith, text_eq_refl s.warehouse_code), ground (arith, text_eq_refl s.sku)),
  NamedBy-more s ss ss (All-NamedBy ss),
)

module _ (ws ps : List CatalogueRow) (f : Pair → Bool) (g : ReportStagingRow → Bool) where
  abbrev Same : ReportStagingRow → Type 0
  Same s =
      (w : ℕ) × (p : ℕ) × (id_of s.warehouse_code ws ≡ some w)
      × (id_of s.sku ps ≡ some p)
      × (f record { warehouse_id = w; product_id = p; quantity = s.quantity } ≡ g s)

  count-explicit_pairs :
      (ss : List ReportStagingRow) → All Same ss → count f (explicit_pairs ws ps ss) ≡ count g ss
  unfolding count explicit_pairs
  count-explicit_pairs [] h = refl
  count-explicit_pairs (s ∷ ss) h =
      let (w, p, ew, ep, e) = h.0 in rw (ew, ep) (rw (e, count-explicit_pairs ss h.1))

count_ext {ℓ} :
    {A : Type ℓ} (f g : A → Bool) (xs : List A) → ((x : A) → f x ≡ g x) → count f xs ≡ count g xs
unfolding count
count_ext f g [] h = refl
count_ext f g (x ∷ xs) h = rw (h x, count_ext f g xs h)

abbrev pub is_created : Option ℕ → ℕ → Bool
is_created old q = is_kind created (classify_stock_change old (some q) true)

abbrev pub is_updated : Option ℕ → ℕ → Bool
is_updated old q = is_kind updated (classify_stock_change old (some q) true)

is_created_lem : (o : Option ℕ) (q : ℕ) → not (is_some o) ≡ is_created o q
unfolding classify_stock_change
is_created_lem none q = refl
is_created_lem (some old) q = ground arith

is_updated_lem : (o : Option ℕ) (q : ℕ) → differs o q ≡ is_updated o q
unfolding classify_stock_change
is_updated_lem none q = refl
is_updated_lem (some old) q = ground arith

is_missing_lem :
    (ws : List CatalogueRow) (ss : List ReportStagingRow) (pairs : List Pair) (b : StockBalance)
    → is_missing ws ss pairs b
      ≡ is_kind zero_filled (
          classify_stock_change
            (some b.quantity)
            (pair_quantity b.warehouse_id b.product_id pairs)
            (is_affected ws ss b.warehouse_id))
unfolding is_missing classify_stock_change
is_missing_lem ws ss pairs b = ground (arith, any-is_pair b.warehouse_id b.product_id pairs)

module _ (env : ApplyEnv) (ss : List ReportStagingRow) (db : Db) where
  count_rows :
      (k : Option ℕ → ℕ → Bool) (g : Option ℕ → ℕ → Bool) (rest : List ReportStagingRow)
      → IsDb db
      → ((o : Option ℕ) (q : ℕ) → k o q ≡ g o q)
      → All (NamedBy ss) rest
      → All
          (Same
            (warehouses_after env.now ss db).rows
            (products_after env.now ss db).rows
            (λ x. k (balance_of x.warehouse_id x.product_id db.stock_balances) x.quantity)
            (λ s. g (stock s.warehouse_code s.sku db) s.quantity))
          rest
  count_rows k g [] h e n = tt
  count_rows k g (s ∷ rest) h e n =
      let rs = map warehouse_named ss in
      let qs = map product_named ss in
      let (w, ew) = id_of-upsert_given env.now (distinct_on rs) db.warehouses s.warehouse_code (
        has_key-distinct_on s.warehouse_code rs
        ∙ has_key-warehouse_named s.warehouse_code ss
        ∙ n.0.0) in
      let (p, ep) =
        id_of-upsert_given env.now (distinct_on qs) db.products s.sku
          (has_key-distinct_on s.sku qs ∙ has_key-product_named s.sku ss ∙ n.0.1) in
      let old = balance_of-stock env ss db s.warehouse_code s.sku w p h ew ep in
      (
        (
          w,
          p,
          ew,
          ep,
          ap (λ o. k o s.quantity) old ∙ e (stock s.warehouse_code s.sku db) s.quantity,
        ),
        count_rows k g rest h e n.1,
      )

  counters_of_created :
      IsDb db
      → (counters_of env.now ss db).stocks_created
        ≡ count (λ s. is_created (stock s.warehouse_code s.sku db) s.quantity) ss
  unfolding calculate_counters upsert_warehouses upsert_products
  counters_of_created h =
      count-explicit_pairs _ _ _ _ ss
        (count_rows (λ o q. not (is_some o)) is_created ss h is_created_lem (All-NamedBy ss))

  counters_of_updated :
      IsDb db
      → (counters_of env.now ss db).stocks_updated
        ≡ count (λ s. is_updated (stock s.warehouse_code s.sku db) s.quantity) ss
  unfolding calculate_counters upsert_warehouses upsert_products
  counters_of_updated h =
      count-explicit_pairs _ _ _ _ ss
        (count_rows differs is_updated ss h is_updated_lem (All-NamedBy ss))

  abbrev pub is_zeroed : StockBalance → Bool
  is_zeroed b = is_kind zero_filled (
      classify_stock_change (some b.quantity)
        (pair_quantity b.warehouse_id b.product_id (pairs_after env.now ss db))
        (is_affected (warehouses_after env.now ss db).rows ss b.warehouse_id))

  counters_of_zeroed : (counters_of env.now ss db).stocks_zeroed ≡ count is_zeroed db.stock_balances
  unfolding calculate_counters upsert_warehouses upsert_products
  counters_of_zeroed =
      count_ext _ _ db.stock_balances
        (is_missing_lem (warehouses_after env.now ss db).rows ss (pairs_after env.now ss db))

-- The counters that apply returns are those of the rules for one balance, classify_stock_change:
-- created and updated count the rows of the report by the stock before it, and zeroed counts the
-- balances before it; for tables whose catalogues are well formed and whose balances have ids that the
-- catalogues gave out.
pub apply_counts :
    (env : ApplyEnv) (report_id : ℕ) (db db' : Db) (result : ApplyResult)
    → IsDb db
    → apply env report_id db ≡ (ok result, db')
    → (result.counters.stocks_created
        ≡ count
            (λ s. is_created (stock s.warehouse_code s.sku db) s.quantity)
            (staging_of report_id db.staging_rows))
      × (result.counters.stocks_updated
          ≡ count
              (λ s. is_updated (stock s.warehouse_code s.sku db) s.quantity)
              (staging_of report_id db.staging_rows))
      × (result.counters.stocks_zeroed
          ≡ count (is_zeroed env (staging_of report_id db.staging_rows) db) db.stock_balances)
apply_counts env i db db' result h e =
    let a = apply-IsApplied env i db db' result e in
    let ss = staging_of i db.staging_rows in
    (
      ap (λ c. c.stocks_created) a.counters ∙ counters_of_created env ss db h,
      ap (λ c. c.stocks_updated) a.counters ∙ counters_of_updated env ss db h,
      ap (λ c. c.stocks_zeroed) a.counters ∙ counters_of_zeroed env ss db,
    )
