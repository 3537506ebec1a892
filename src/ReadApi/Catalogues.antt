-- ===== src/ReadApi/Catalogues.antt =====
-- The listings of warehouses and products, read page after page.
use service_of_import.Prelude.{ℕ, Text, Bool, Option, List, ◌*◌, ◌≤◌, ◌≡◌, length}
use service_of_import.Errors.{ok}
use service_of_import.Database.{CatalogueRow}
use service_of_import.Steps.{World, Outside, IsQuiet}
use service_of_import.Paging.Returns.{Walks, walk-Walks, transaction-Returns}
use service_of_import.Paging.{Page, Sort, selected, walk}
use service_of_import.Paging.Order.{IsKeyed, IsSort}
use service_of_import.Paging.Walk.{IsQuery, IsWalk, walk-IsWalk, transaction_reads}
use service_of_import.ReadApi.{catalogue_filter, by_key, list_warehouses, list_products}
use service_of_import.ReadApi.Matched.{IsMatch, catalogue_filter_iff}
use service_of_import.ReadApi.Ordered.{
  IsCollation, by_key-IsOrder, KeyPrecedes, by_key-strict, KeyPrecedes-asymm,
}

module _ (text_le : Text → Text → Bool) (collation : IsCollation text_le) where
  catalogue-IsQuery :
      (lower : Text → Text) (key query : Option Text)
      → IsQuery
          (λ (r : CatalogueRow). r.id)
          (catalogue_filter lower key query)
          (by_key text_le)
          (KeyPrecedes text_le)
          (IsMatch lower key query)
  catalogue-IsQuery lower key query = record {
    order = by_key-IsOrder text_le collation;
    strict = by_key-strict text_le;
    asymm = KeyPrecedes-asymm text_le collation;
    matches = λ r. (catalogue_filter_iff lower key query r).0;
    kept = λ r. (catalogue_filter_iff lower key query r).1;
  }

  list_warehouses-IsWalk :
      (lower : Text → Text) (sort : Sort CatalogueRow) (out : Outside) (code query : Option Text)
      (limit n : ℕ) (w w' : World) (pages : List (Page CatalogueRow))
      → IsSort sort
      → IsKeyed (λ (r : CatalogueRow). r.id) w.db.warehouses.rows
      → length w.db.warehouses.rows ≤ n * limit
      → walk (list_warehouses text_le lower sort out code query limit) limit n w ≡ (ok pages, w')
      → IsWalk (KeyPrecedes text_le) (IsMatch lower code query) w.db.warehouses.rows limit pages
  unfolding list_warehouses
  list_warehouses-IsWalk lower sort out code query limit n w w' pages is_sort keyed enough h =
      walk-IsWalk (catalogue-IsQuery lower code query) sort is_sort (λ db. db.warehouses.rows) limit
        (list_warehouses text_le lower sort out code query limit)
        (λ offset w w' page.
          transaction_reads out
            (λ db.
              selected (catalogue_filter lower code query) (sort (by_key text_le) w.calls) limit
                offset db.warehouses.rows)
            page w w')
        n w w' pages keyed enough h

  list_products-IsWalk :
      (lower : Text → Text) (sort : Sort CatalogueRow) (out : Outside) (sku query : Option Text)
      (limit n : ℕ) (w w' : World) (pages : List (Page CatalogueRow))
      → IsSort sort
      → IsKeyed (λ (r : CatalogueRow). r.id) w.db.products.rows
      → length w.db.products.rows ≤ n * limit
      → walk (list_products text_le lower sort out sku query limit) limit n w ≡ (ok pages, w')
      → IsWalk (KeyPrecedes text_le) (IsMatch lower sku query) w.db.products.rows limit pages
  unfolding list_products
  list_products-IsWalk lower sort out sku query limit n w w' pages is_sort keyed enough h =
      walk-IsWalk (catalogue-IsQuery lower sku query) sort is_sort (λ db. db.products.rows) limit
        (list_products text_le lower sort out sku query limit)
        (λ offset w w' page.
          transaction_reads out
            (λ db.
              selected (catalogue_filter lower sku query) (sort (by_key text_le) w.calls) limit
                offset db.products.rows)
            page w w')
        n w w' pages keyed enough h

  -- A client that reads the first `n` pages of list_warehouses, with pages enough for all warehouses,
  -- without a change of the tables in between and with no failure outside, gets exactly those with
  -- the code that it asks for, if any, and with the text that it searches for in the code or in the
  -- name, each once, ordered by code and then id; each page tells their number and holds at most
  -- `limit` of them. The ids are distinct; the database may order tied rows in any way.
  pub walk-list_warehouses :
      (lower : Text → Text) (sort : Sort CatalogueRow) (out : Outside) (code query : Option Text)
      (limit n : ℕ) (w : World)
      → IsSort sort
      → IsQuiet out
      → IsKeyed (λ (r : CatalogueRow). r.id) w.db.warehouses.rows
      → length w.db.warehouses.rows ≤ n * limit
      → Walks
          (KeyPrecedes text_le)
          (IsMatch lower code query)
          w.db.warehouses.rows
          limit
          (walk (list_warehouses text_le lower sort out code query limit) limit n w)
  unfolding list_warehouses
  walk-list_warehouses lower sort out code query limit n w is_sort quiet keyed enough =
      walk-Walks (list_warehouses text_le lower sort out code query limit) limit n w
        (λ offset w.
          transaction-Returns out quiet
            (λ db.
              selected (catalogue_filter lower code query) (sort (by_key text_le) w.calls) limit
                offset db.warehouses.rows)
            w)
        (λ w' pages.
          list_warehouses-IsWalk lower sort out code query limit n w w' pages is_sort keyed enough)

  -- A client that reads the first `n` pages of list_products, with pages enough for all products, without
  -- a change of the tables in between and with no failure outside, gets exactly those with the SKU
  -- that it asks for, if any, and with the text that it searches for in the SKU or in the name, each
  -- once, ordered by SKU and then id; each page tells their number and holds at most `limit` of them.
  -- The ids are distinct; the database may order tied rows in any way.
  pub walk-list_products :
      (lower : Text → Text) (sort : Sort CatalogueRow) (out : Outside) (sku query : Option Text)
      (limit n : ℕ) (w : World)
      → IsSort sort
      → IsQuiet out
      → IsKeyed (λ (r : CatalogueRow). r.id) w.db.products.rows
      → length w.db.products.rows ≤ n * limit
      → Walks
          (KeyPrecedes text_le)
          (IsMatch lower sku query)
          w.db.products.rows
          limit
          (walk (list_products text_le lower sort out sku query limit) limit n w)
  unfolding list_products
  walk-list_products lower sort out sku query limit n w is_sort quiet keyed enough =
      walk-Walks (list_products text_le lower sort out sku query limit) limit n w
        (λ offset w.
          transaction-Returns out quiet
            (λ db.
              selected (catalogue_filter lower sku query) (sort (by_key text_le) w.calls) limit
                offset db.products.rows)
            w)
        (λ w' pages.
          list_products-IsWalk lower sort out sku query limit n w w' pages is_sort keyed enough)
