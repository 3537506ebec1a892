-- ===== src/Paging/Sorting.antt =====
-- The insertion sort keeps the promise of ORDER BY.
use service_of_import.Prelude.{refl, Bool, true, inl, inr, List, [], ◌∷◌, Bool-cases, ◌≡◌}
use mathlib.Core.List.{Permᴰ}
use mathlib.Core.List.Permᴰ
use service_of_import.Paging.{stable, insert_by, order_by}
use service_of_import.Paging.Order.{IsOrder, IsOrdered, IsSort, All-mem, mem-All, mem-perm}

module _ {ℓ} {A : Type ℓ} (before : A → A → Bool) where
  insert_by-perm : (x : A) (ys : List A) → Permᴰ (insert_by before x ys) (x ∷ ys)
  unfolding insert_by
  insert_by-perm x [] = Permᴰ.refl (x ∷ [])
  insert_by-perm x (y ∷ ys) = elim (Bool-cases (before x y)) [
    | inl e ↦ rw e (Permᴰ.refl (x ∷ y ∷ ys))
    | inr e ↦ rw e (Permᴰ.trans (Permᴰ.cons refl (insert_by-perm x ys)) (Permᴰ.swap refl refl))
  ]

  order_by-perm : (xs : List A) → Permᴰ (order_by before xs) xs
  unfolding order_by
  order_by-perm [] = Permᴰ.nil
  order_by-perm (x ∷ xs) =
      Permᴰ.trans (insert_by-perm x (order_by before xs)) (Permᴰ.cons refl (order_by-perm xs))

  module _ (order : IsOrder before) where
    insert_by-IsOrdered :
        (x : A) (ys : List A)
        → IsOrdered (λ x y. before x y ≡ true) ys
        → IsOrdered (λ x y. before x y ≡ true) (insert_by before x ys)
    unfolding insert_by
    insert_by-IsOrdered x [] h = (tt, tt)
    insert_by-IsOrdered x (y ∷ ys) (h, hs) = elim (Bool-cases (before x y)) [
      | inl e ↦ rw e (
        (e, All-mem ys (λ a m. order.trans x y a e (mem-All (λ b. before y b ≡ true) ys a h m))),
        (h, hs),
      )
      | inr e ↦ rw e (
        All-mem (insert_by before x ys) (λ a m.
            mem-All (λ b. before y b ≡ true) (x ∷ ys) a (order.total x y e, h)
              (mem-perm a (insert_by-perm x ys) m)),
        insert_by-IsOrdered x ys hs,
      )
    ]

    order_by-IsOrdered : (xs : List A) → IsOrdered (λ x y. before x y ≡ true) (order_by before xs)
    unfolding order_by
    order_by-IsOrdered [] = tt
    order_by-IsOrdered (x ∷ xs) = insert_by-IsOrdered x (order_by before xs) (order_by-IsOrdered xs)

pub stable-IsSort {ℓ} : {A : Type ℓ} → IsSort (stable {A = A})
stable-IsSort = record {
  permutes = λ before call xs. order_by-perm before xs;
  sorts = λ before call xs order. order_by-IsOrdered before order xs;
}
