-- ===== src/ReadApi/Listed.antt =====
-- The listing of stocks, read page after page.
use service_of_import.Prelude.{
  ℕ, Text, Bool, List, [], ◌∷◌, ◌*◌, ◌≤◌, ◌≡◌, refl, ap, sym, ◌∙◌, subst, map, length, All, suc,
}
use service_of_import.Errors.{ok}
use service_of_import.Database.{CatalogueRow, StockBalance}
use service_of_import.Steps.{World, Outside, IsQuiet}
use service_of_import.Paging.Returns.{Walks, walk-Walks, transaction-Returns}
use service_of_import.Paging.{Page, Sort, selected, walk}
use service_of_import.Paging.Order.{IsOrdered, IsKeyed, IsSort}
use service_of_import.Paging.Walk.{IsQuery, IsWalk, walk-IsWalk, transaction_reads}
use service_of_import.ReadApi.{
  StockReadModel, StockFilters, stock_filter, stock_rows, by_codes, list_stocks,
}
use service_of_import.ReadApi.Joined.{
  IsUnique, IsLinked, row_key, balance_key, stock_rows-IsDescribed,
}
use service_of_import.ReadApi.Matched.{IsStockMatch, stock_filter_iff}
use service_of_import.ReadApi.Ordered.{
  IsCollation, by_codes-IsOrder, StockPrecedes, by_codes-strict, StockPrecedes-asymm, row_ids,
}

abbrev pub balance_ids : StockBalance → ℕ × ℕ
balance_ids b = (b.warehouse_id, b.product_id)

All-map :
    {A B : Type 0} (P : B → Type 0) (f : A → B) (xs : List A)
    → (All P (map f xs) → All (λ x. P (f x)) xs) × (All (λ x. P (f x)) xs → All P (map f xs))
All-map P f [] = (λ h. tt, λ h. tt)
All-map P f (x ∷ xs) =
    let (there, back) = All-map P f xs in (λ h. (h.0, there h.1), λ h. (h.0, back h.1))

IsOrdered-map :
    {A B : Type 0} (R : B → B → Type 0) (f : A → B) (xs : List A)
    → (IsOrdered R (map f xs) → IsOrdered (λ x y. R (f x) (f y)) xs)
      × (IsOrdered (λ x y. R (f x) (f y)) xs → IsOrdered R (map f xs))
IsOrdered-map R f [] = (λ h. tt, λ h. tt)
IsOrdered-map R f (x ∷ xs) =
    let (all_there, all_back) = All-map (R (f x)) f xs in
    let (there, back) = IsOrdered-map R f xs in
    (λ h. (all_there h.0, there h.1), λ h. (all_back h.0, back h.1))

abbrev ids_of : ℕ × ℕ × ℕ × ℕ × ℕ → ℕ × ℕ
ids_of (w, p, q, c, u) = (w, p)

length-map : {A B : Type 0} (f : A → B) (xs : List A) → length (map f xs) ≡ length xs
length-map f [] = refl
length-map f (x ∷ xs) = ap suc (length-map f xs)

module _ (warehouses products : List CatalogueRow) (balances : List StockBalance)
    (unique_w : IsUnique warehouses) (unique_p : IsUnique products)
    (linked : IsLinked warehouses products balances) where
  -- The joined rows have the ids of the balances, of which no two have the same.
  stock_rows-IsKeyed :
      IsKeyed balance_ids balances → IsKeyed row_ids (stock_rows warehouses products balances)
  stock_rows-IsKeyed keyed =
      let alike =
        (stock_rows-IsDescribed warehouses products balances unique_w unique_p linked).0 in
      let R = λ (a b : ℕ × ℕ × ℕ × ℕ × ℕ). ¬ (ids_of a ≡ ids_of b) in
      (IsOrdered-map R row_key (stock_rows warehouses products balances)).0
        (subst (IsOrdered R) (sym alike) ((IsOrdered-map R balance_key balances).1 keyed))

  length-stock_rows : length (stock_rows warehouses products balances) ≡ length balances
  length-stock_rows =
      sym (length-map row_key (stock_rows warehouses products balances))
      ∙ ap length (stock_rows-IsDescribed warehouses products balances unique_w unique_p linked).0
      ∙ length-map balance_key balances

module _ (text_le : Text → Text → Bool) (collation : IsCollation text_le) where
  stocks-IsQuery :
      (f : StockFilters)
      → IsQuery row_ids (stock_filter f) (by_codes text_le) (StockPrecedes text_le) (IsStockMatch f)
  stocks-IsQuery f = record {
    order = by_codes-IsOrder text_le collation;
    strict = by_codes-strict text_le;
    asymm = StockPrecedes-asymm text_le collation;
    matches = λ r. (stock_filter_iff f r).0;
    kept = λ r. (stock_filter_iff f r).1;
  }

  list_stocks-IsWalk :
      (sort : Sort StockReadModel) (out : Outside) (f : StockFilters) (limit n : ℕ) (w w' : World)
      (pages : List (Page StockReadModel))
      → IsSort sort
      → IsUnique w.db.warehouses.rows
      → IsUnique w.db.products.rows
      → IsLinked w.db.warehouses.rows w.db.products.rows w.db.stock_balances
      → IsKeyed balance_ids w.db.stock_balances
      → length w.db.stock_balances ≤ n * limit
      → walk (list_stocks text_le sort out f limit) limit n w ≡ (ok pages, w')
      → IsWalk
          (StockPrecedes text_le)
          (IsStockMatch f)
          (stock_rows w.db.warehouses.rows w.db.products.rows w.db.stock_balances)
          limit
          pages
  unfolding list_stocks
  list_stocks-IsWalk sort out f limit n w w' pages is_sort unique_w unique_p linked keyed enough h =
      walk-IsWalk (stocks-IsQuery f) sort is_sort
        (λ db. stock_rows db.warehouses.rows db.products.rows db.stock_balances) limit
        (list_stocks text_le sort out f limit)
        (λ offset w w' page.
          transaction_reads out
            (λ db.
              selected (stock_filter f) (sort (by_codes text_le) w.calls) limit offset
                (stock_rows db.warehouses.rows db.products.rows db.stock_balances))
            page w w')
        n w w' pages
        (stock_rows-IsKeyed w.db.warehouses.rows w.db.products.rows w.db.stock_balances unique_w
          unique_p linked keyed)
        (subst (λ k. k ≤ n * limit)
          (sym (
            length-stock_rows w.db.warehouses.rows w.db.products.rows w.db.stock_balances unique_w
              unique_p linked))
          enough)
        h

  -- A client that reads the first `n` pages of list_stocks, with pages enough for all balances, without a
  -- change of the tables in between and with no failure outside, gets exactly the joined rows that it
  -- asks for, by their ids, code and SKU and with or without the empty ones, each once, ordered by
  -- code, then SKU, then the ids; each page tells their number and holds at most `limit` of them. The
  -- tables have the primary and foreign keys of the schema; the database may order tied rows in any
  -- way.
  pub walk-list_stocks :
      (sort : Sort StockReadModel) (out : Outside) (f : StockFilters) (limit n : ℕ) (w : World)
      → IsSort sort
      → IsQuiet out
      → IsUnique w.db.warehouses.rows
      → IsUnique w.db.products.rows
      → IsLinked w.db.warehouses.rows w.db.products.rows w.db.stock_balances
      → IsKeyed balance_ids w.db.stock_balances
      → length w.db.stock_balances ≤ n * limit
      → Walks
          (StockPrecedes text_le)
          (IsStockMatch f)
          (stock_rows w.db.warehouses.rows w.db.products.rows w.db.stock_balances)
          limit
          (walk (list_stocks text_le sort out f limit) limit n w)
  unfolding list_stocks
  walk-list_stocks sort out f limit n w is_sort quiet unique_w unique_p linked keyed enough =
      walk-Walks (list_stocks text_le sort out f limit) limit n w
        (λ offset w.
          transaction-Returns out quiet
            (λ db.
              selected (stock_filter f) (sort (by_codes text_le) w.calls) limit offset
                (stock_rows db.warehouses.rows db.products.rows db.stock_balances))
            w)
        (λ w' pages.
          list_stocks-IsWalk sort out f limit n w w' pages is_sort unique_w unique_p linked keyed
            enough)
