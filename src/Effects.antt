-- ===== src/Effects.antt =====
-- Code that reads and writes a world and may raise. What it did before an exception stays done, so
-- the world is returned either way.
use service_of_import.Prelude.{◌≡◌, refl, ◌⊎◌, inl, inr, arith}
use service_of_import.Errors.{Exn, Result, ok, raised}

abbrev pub Eff {ℓ} : Type 0 → Type ℓ → Type ℓ
Eff W A = W → Result A × W

abbrev pub pure {ℓ} : {W : Type 0} {A : Type ℓ} → A → Eff W A
pure a w = (ok a, w)

abbrev pub raise {ℓ} : {W : Type 0} {A : Type ℓ} → Exn → Eff W A
raise e w = (raised e, w)

abbrev pub and_then {ℓ κ} :
    {W : Type 0} {A : Type ℓ} {B : Type κ} → Result A × W → (A → Eff W B) → Result B × W
and_then (ok a, w) f = f a w
and_then (raised e, w) f = (raised e, w)

infixl 10 ◌>>=◌ ◌>>◌
abbrev pub ◌>>=◌ {ℓ κ} : {W : Type 0} {A : Type ℓ} {B : Type κ} → Eff W A → (A → Eff W B) → Eff W B
◌>>=◌ m f w = and_then (m w) f

abbrev pub ◌>>◌ {ℓ} : {W : Type 0} {B : Type ℓ} → Eff W (Unit {0}) → Eff W B → Eff W B
m >> k = m >>= λ _. k

abbrev map_world {ℓ} : {V W : Type 0} {A : Type ℓ} → (V → W) → Result A × V → Result A × W
map_world f (r, v) = (r, f v)

-- A call on the first part of a world, or on the second.
abbrev pub on_left {ℓ} : {V W : Type 0} {A : Type ℓ} → Eff V A → Eff (V × W) A
on_left m (v, w) = map_world (λ v'. (v', w)) (m v)

abbrev pub on_right {ℓ} : {V W : Type 0} {A : Type ℓ} → Eff W A → Eff (V × W) A
on_right m (v, w) = map_world (λ w'. (v, w')) (m w)

-- What a bind that returned went through.
pub and_then-ok {ℓ κ} :
    {W : Type 0} {A : Type ℓ} {B : Type κ} (r : Result A × W) (f : A → Eff W B) {b : B} {w : W}
    → and_then r f ≡ (ok b, w)
    → (a : A) × (v : W) × (r ≡ (ok a, v)) × (f a v ≡ (ok b, w))
and_then-ok (ok a, v) f h = (a, v, refl, h)
and_then-ok (raised e, v) f h = cc

pub on_left-ok {ℓ} :
    {V W : Type 0} {A : Type ℓ} (m : Eff V A) (v v' : V) (w w' : W) (a : A)
    → on_left m (v, w) ≡ (ok a, (v', w'))
    → (m v ≡ (ok a, v')) × (w ≡ w')
on_left-ok m v v' w w' a h = (ground arith, ground arith)

pub on_right-ok {ℓ} :
    {V W : Type 0} {A : Type ℓ} (m : Eff W A) (v v' : V) (w w' : W) (a : A)
    → on_right m (v, w) ≡ (ok a, (v', w'))
    → (m w ≡ (ok a, w')) × (v ≡ v')
on_right-ok m v v' w w' a h = (ground arith, ground arith)

-- Where a bind that raised did so.
pub and_then-raised {ℓ κ} :
    {W : Type 0} {A : Type ℓ} {B : Type κ} (r : Result A × W) (f : A → Eff W B) {e : Exn} {w : W}
    → and_then r f ≡ (raised e, w)
    → (r ≡ (raised e, w)) ⊎ ((a : A) × (v : W) × (r ≡ (ok a, v)) × (f a v ≡ (raised e, w)))
and_then-raised (ok a, v) f h = inr (a, v, refl, h)
and_then-raised (raised d, v) f h = inl (ground arith)
