-- ===== src/Storage/Numbered.antt =====
-- Parts numbered in order, full but for the last, make a complete upload.
use service_of_import.Prelude.{
  ℕ, suc, ◌+◌, ◌*◌, ◌≤◌, ◌≡◌, ◌≢◌, refl, List, [], ◌∷◌, ◌++◌, All, length, length-append, arith,
  inl, inr,
}
use service_of_import.S3.{Bytes, Part, joined, IsComplete, min_part_bytes, max_part_number}

abbrev pub Full : ℕ → List Part → Type 0
Full size ps = All (λ p. length p.body ≡ size) ps

abbrev pub Numbered : ℕ → List Part → Type 0
Numbered n [] = Unit
Numbered n (p ∷ ps) = (p.tag.part_number ≡ n) × Numbered (suc n) ps

pub Full-snoc :
    (size : ℕ) (ps : List Part) (p : Part)
    → Full size ps
    → length p.body ≡ size
    → Full size (ps ++ p ∷ [])
Full-snoc size [] p h e = (e, tt)
Full-snoc size (q ∷ ps) p h e = (h.0, Full-snoc size ps p h.1 e)

pub Numbered-snoc :
    (n : ℕ) (ps : List Part) (p : Part)
    → Numbered n ps
    → p.tag.part_number ≡ n + length ps
    → Numbered n (ps ++ p ∷ [])
Numbered-snoc n [] p h e = (omega arith, tt)
Numbered-snoc n (q ∷ ps) p h e = (h.0, Numbered-snoc (suc n) ps p h.1 (omega arith))

-- Full parts and a last one of any size make a complete upload.
pub Full-IsComplete :
    (size n : ℕ) (ps : List Part) (p : Part)
    → min_part_bytes ≤ size
    → Full size ps
    → Numbered n (ps ++ p ∷ [])
    → n + length ps ≤ max_part_number
    → IsComplete n (ps ++ p ∷ [])
Full-IsComplete size n [] p m f h b = (h.0, omega arith, inl refl, tt)
Full-IsComplete size n (q ∷ ps) p m f h b = (
  h.0,
  omega arith,
  inr (omega (arith, f.0)),
  Full-IsComplete size (suc n) ps p m f.1 h.1 (omega arith),
)

pub length-joined-Full :
    (size : ℕ) (ps : List Part) → Full size ps → length (joined ps) ≡ length ps * size
length-joined-Full size [] f = omega arith
length-joined-Full size (p ∷ ps) f =
    grind (arith, length-joined-Full size ps f.1, length-append p.body (joined ps), f.0)

pub nil_of_length : (xs : Bytes) → length xs ≡ 0 → xs ≡ []
nil_of_length [] h = refl
nil_of_length (x ∷ xs) h = absurd (omega arith)

pub snoc-ne_nil : (ps : List Part) (p : Part) → ps ++ p ∷ [] ≢ []
snoc-ne_nil [] p h = cc
snoc-ne_nil (q ∷ ps) p h = cc
