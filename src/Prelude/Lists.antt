-- ===== src/Prelude/Lists.antt =====
-- Lists measured by the native numbers, and predicates by recursion.
use Prim.Native.Nat.{ℕ, zero, suc, ◌+◌}
use mathlib.Core.Path.{◌≡◌, refl}
use mathlib.Core.List.{List, [], ◌∷◌, ◌++◌, Memᴰ}
use native.Mathlib.Omega.{arith}

module _ {ℓ} {A : Type ℓ} where
  abbrev pub length : List A → ℕ
  length [] = 0
  length (x ∷ xs) = suc (length xs)

  abbrev pub take : ℕ → List A → List A
  take zero xs = []
  take (suc n) [] = []
  take (suc n) (x ∷ xs) = x ∷ take n xs

  pub length-append : (xs ys : List A) → length (xs ++ ys) ≡ length xs + length ys
  length-append [] ys = omega arith
  length-append (x ∷ xs) ys = omega (arith, length-append xs ys)

abbrev pub All {ℓ κ} : {A : Type ℓ} → (A → Type κ) → List A → Type κ
All P [] = Unit
All P (x ∷ xs) = P x × All P xs

pub All-append {ℓ κ} :
    {A : Type ℓ} (Q : A → Type κ) (l m : List A) → All Q l → All Q m → All Q (l ++ m)
All-append Q [] m p q = q
All-append Q (a ∷ l) m (first, p) q = (first, All-append Q l m p q)

pub All-prefix {ℓ κ} : {A : Type ℓ} (Q : A → Type κ) (l m : List A) → All Q (l ++ m) → All Q l
All-prefix Q [] m h = tt
All-prefix Q (a ∷ l) m (first, h) = (first, All-prefix Q l m h)

pub All-suffix {ℓ κ} : {A : Type ℓ} (Q : A → Type κ) (l m : List A) → All Q (l ++ m) → All Q m
All-suffix Q [] m h = h
All-suffix Q (a ∷ l) m (first, h) = All-suffix Q l m h

-- What holds of the members of a list holds of the list.
All-of_mem {ℓ κ} : {A : Type ℓ} (Q : A → Type κ) (l : List A) → ((x : A) → Memᴰ x l → Q x) → All Q l
All-of_mem Q [] h = tt
All-of_mem Q (x ∷ l) h = (h x (Memᴰ.head refl), All-of_mem Q l (λ y m. h y (Memᴰ.tail m)))

pub All-Mem {ℓ} : {A : Type ℓ} (l : List A) → All (λ x. Memᴰ x l) l
All-Mem l = All-of_mem (λ x. Memᴰ x l) l (λ x m. m)
