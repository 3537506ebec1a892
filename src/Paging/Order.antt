-- ===== src/Paging/Order.antt =====
-- Lists in an order. What ORDER BY promises of the rows that it returns, of which it leaves tied ones in
-- any order, and a sort that keeps the promise.
use service_of_import.Prelude.{
  ℕ, ap, ap₂, sym, subst, suc, if◌then◌else◌, length, ◌∙◌, ◌≡◌, Bool, true, false, inl, inr, List,
  [], ◌∷◌, Bool-cases, All, filter, ◌⊎◌, refl,
}
use mathlib.Core.List.{Memᴰ, Permᴰ}
use mathlib.Core.List.Memᴰ
use mathlib.Core.List.Permᴰ
use service_of_import.Paging.{Sort}

-- What a comparison needs.
pub record IsOrder {ℓ} {A : Type ℓ} (before : A → A → Bool) : Type ℓ where
  pub total : (x y : A) → before x y ≡ false → before y x ≡ true
  pub trans : (x y z : A) → before x y ≡ true → before y z ≡ true → before x z ≡ true

-- Each element is related to all behind it.
abbrev pub IsOrdered {ℓ κ} : {A : Type ℓ} → (A → A → Type κ) → List A → Type κ
IsOrdered R [] = Unit
IsOrdered R (x ∷ xs) = All (R x) xs × IsOrdered R xs

-- No two elements have the same key.
abbrev pub IsKeyed {ℓ κ} : {A : Type ℓ} {K : Type κ} → (A → K) → List A → Type κ
IsKeyed key = IsOrdered (λ x y. ¬ (key x ≡ key y))

-- Whatever the call, ORDER BY returns the rows that it is given, in the order of the comparison.
pub record IsSort {ℓ} {A : Type ℓ} (sort : Sort A) : Type ℓ where
  pub permutes : (before : A → A → Bool) (call : ℕ) (xs : List A) → Permᴰ (sort before call xs) xs
  pub sorts :
      (before : A → A → Bool) (call : ℕ) (xs : List A)
      → IsOrder before
      → IsOrdered (λ x y. before x y ≡ true) (sort before call xs)

module _ {ℓ} {A : Type ℓ} where
  pub mem-perm : {l l' : List A} (a : A) → Permᴰ l l' → Memᴰ a l → Memᴰ a l'
  mem-perm a Permᴰ.nil m = m
  mem-perm a (Permᴰ.cons e d) (Memᴰ.head f) = Memᴰ.head (f ∙ e)
  mem-perm a (Permᴰ.cons e d) (Memᴰ.tail m) = Memᴰ.tail (mem-perm a d m)
  mem-perm a (Permᴰ.swap e f) (Memᴰ.head g) = Memᴰ.tail (Memᴰ.head (g ∙ e))
  mem-perm a (Permᴰ.swap e f) (Memᴰ.tail (Memᴰ.head g)) = Memᴰ.head (g ∙ f)
  mem-perm a (Permᴰ.swap e f) (Memᴰ.tail (Memᴰ.tail m)) = Memᴰ.tail (Memᴰ.tail m)
  mem-perm a (Permᴰ.trans d d') m = mem-perm a d' (mem-perm a d m)

  pub length-perm : {l l' : List A} → Permᴰ l l' → length l ≡ length l'
  length-perm Permᴰ.nil = refl
  length-perm (Permᴰ.cons e d) = ap suc (length-perm d)
  length-perm (Permᴰ.swap e f) = refl
  length-perm (Permᴰ.trans d d') = length-perm d ∙ length-perm d'

  pub All-mem {κ} : {P : A → Type κ} (xs : List A) → ((a : A) → Memᴰ a xs → P a) → All P xs
  All-mem [] h = tt
  All-mem (x ∷ xs) h = (h x (Memᴰ.head refl), All-mem xs (λ a m. h a (Memᴰ.tail m)))

  pub mem-All {κ} : (P : A → Type κ) (xs : List A) (a : A) → All P xs → Memᴰ a xs → P a
  mem-All P [] a h m = absurd (Memᴰ.not-nil m)
  mem-All P (x ∷ xs) a (h, hs) (Memᴰ.head e) = subst P (sym e) h
  mem-All P (x ∷ xs) a (h, hs) (Memᴰ.tail m) = mem-All P xs a hs m

  pub mem-filter :
      (p : A → Bool) (xs : List A) (a : A) → Memᴰ a (filter p xs) → Memᴰ a xs × (p a ≡ true)
  unfolding filter
  mem-filter p [] a m = absurd (Memᴰ.not-nil m)
  mem-filter p (x ∷ xs) a m = elim (Bool-cases (p x)) [
    | inr e ↦
        let (n, f) =
          mem-filter p xs a
            (subst (λ b. Memᴰ a (if b then x ∷ filter p xs else filter p xs)) e m) in
        (Memᴰ.tail n, f)
    | inl e ↦
        elim (Memᴰ.cases_cons
          (subst (λ b. Memᴰ a (if b then x ∷ filter p xs else filter p xs)) e m)) [
            | inl f ↦ (Memᴰ.head f, ap p f ∙ e)
            | inr n ↦ let (n', f) = mem-filter p xs a n in (Memᴰ.tail n', f)
          ]
  ]

  pub filter-mem :
      (p : A → Bool) (xs : List A) (a : A) → p a ≡ true → Memᴰ a xs → Memᴰ a (filter p xs)
  unfolding filter
  filter-mem p [] a h m = absurd (Memᴰ.not-nil m)
  filter-mem p (x ∷ xs) a h (Memᴰ.head e) = rw (ap p (sym e) ∙ h) (Memᴰ.head e)
  filter-mem p (x ∷ xs) a h (Memᴰ.tail m) = elim (Bool-cases (p x)) [
    | inl e ↦ rw e (Memᴰ.tail (filter-mem p xs a h m))
    | inr e ↦ rw e (filter-mem p xs a h m)
  ]

  pub filter-IsOrdered {κ} :
      (R : A → A → Type κ) (p : A → Bool) (xs : List A) → IsOrdered R xs → IsOrdered R (filter p xs)
  unfolding filter
  filter-IsOrdered R p [] h = tt
  filter-IsOrdered R p (x ∷ xs) (h, hs) = elim (Bool-cases (p x)) [
    | inl e ↦ rw e (
      All-mem (filter p xs) (λ a m. mem-All (R x) xs a h (mem-filter p xs a m).0),
      filter-IsOrdered R p xs hs,
    )
    | inr e ↦ rw e (filter-IsOrdered R p xs hs)
  ]

  All-perm {κ} : (P : A → Type κ) {l l' : List A} → Permᴰ l l' → All P l → All P l'
  All-perm P {l} {l'} d h = All-mem l' (λ a m. mem-All P l a h (mem-perm a (Permᴰ.symm d) m))

  -- A symmetric relation holds in any order.
  pub IsOrdered-perm {κ} :
      (R : A → A → Type κ) (swapped : (x y : A) → R x y → R y x) {l l' : List A}
      → Permᴰ l l'
      → IsOrdered R l
      → IsOrdered R l'
  IsOrdered-perm R swapped Permᴰ.nil h = h
  IsOrdered-perm R swapped (Permᴰ.cons {a} {b} {l₂ = l} e d) (h, hs) =
      (subst (λ x. All (R x) l) e (All-perm (R a) d h), IsOrdered-perm R swapped d hs)
  IsOrdered-perm R swapped (Permᴰ.swap {a} {b} {b'} {l} e f) ((r, h), (k, hs)) = (
    (subst (λ x. R x b') f (subst (R b) e (swapped a b r)), subst (λ x. All (R x) l) f k),
    (subst (λ x. All (R x) l) e h, hs),
  )
  IsOrdered-perm R swapped (Permᴰ.trans d d') h =
      IsOrdered-perm R swapped d' (IsOrdered-perm R swapped d h)

  pub IsOrdered-and {κ μ ν} :
      {R : A → A → Type κ} {S : A → A → Type μ} {T : A → A → Type ν} (xs : List A)
      → ((x y : A) → R x y → S x y → T x y)
      → IsOrdered R xs
      → IsOrdered S xs
      → IsOrdered T xs
  IsOrdered-and [] f h k = tt
  IsOrdered-and {R} {S} (x ∷ xs) f (h, hs) (k, ks) = (
    All-mem xs (λ a m. f x a (mem-All (R x) xs a h m) (mem-All (S x) xs a k m)),
    IsOrdered-and xs f hs ks,
  )

  module _ {κ} (R : A → A → Type κ) (asymm : (x y : A) → R x y → R y x → ⊥) where
    -- Of the elements behind the first one, the others have none other than it.
    behind :
        (x y : A) (xs ys : List A) (a : A)
        → x ≡ y
        → All (R x) xs
        → Memᴰ a xs
        → (a ≡ y) ⊎ Memᴰ a ys
        → Memᴰ a ys
    behind x y xs ys a e h m (inr n) = n
    behind x y xs ys a e h m (inl f) =
        let r = mem-All (R x) xs a h m in
        let loop = subst (R x) (f ∙ sym e) r in absurd (asymm x x loop loop)

    first :
        (x y : A) (xs ys : List A)
        → All (R x) xs
        → All (R y) ys
        → (x ≡ y) ⊎ Memᴰ x ys
        → (y ≡ x) ⊎ Memᴰ y xs
        → x ≡ y
    first x y xs ys h k (inl e) o = e
    first x y xs ys h k (inr m) (inl e) = sym e
    first x y xs ys h k (inr m) (inr n) =
        absurd (asymm x y (mem-All (R x) xs y h n) (mem-All (R y) ys x k m))

    -- A strict order arranges elements in one way.
    pub IsOrdered-unique :
        (xs ys : List A)
        → IsOrdered R xs
        → IsOrdered R ys
        → ((a : A) → Memᴰ a xs → Memᴰ a ys)
        → ((a : A) → Memᴰ a ys → Memᴰ a xs)
        → xs ≡ ys
    IsOrdered-unique [] [] h k f g = refl
    IsOrdered-unique [] (y ∷ ys) h k f g = absurd (Memᴰ.not-nil (g y (Memᴰ.head refl)))
    IsOrdered-unique (x ∷ xs) [] h k f g = absurd (Memᴰ.not-nil (f x (Memᴰ.head refl)))
    IsOrdered-unique (x ∷ xs) (y ∷ ys) (h, hs) (k, ks) f g =
        let e =
          first x y xs ys h k (Memᴰ.cases_cons (f x (Memᴰ.head refl)))
            (Memᴰ.cases_cons (g y (Memᴰ.head refl))) in
        ap₂ ◌∷◌ e (
          IsOrdered-unique xs ys hs ks
            (λ a m. behind x y xs ys a e h m (Memᴰ.cases_cons (f a (Memᴰ.tail m))))
            (λ a m. behind y x ys xs a (sym e) k m (Memᴰ.cases_cons (g a (Memᴰ.tail m)))))
