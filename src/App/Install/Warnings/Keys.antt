-- ===== src/App/Install/Warnings/Keys.antt =====
-- pkg/app/install.go: the sorted keys of a map are its keys.
use mcpurl.Prelude.{◌≡◌, refl, sym, ◌⊎◌, inl, inr, Bool-cases, List, [], ◌∷◌, some}
use mcpurl.Prelude.Bytes.{Bytes, equal-cases}
use native.Mathlib.Omega.{arith}
use mathlib.Core.List.{Memᴰ}
use mathlib.Core.List.Memᴰ
use mcpurl.App.Entries.{Value, Members, empty, member, lookup}
use mcpurl.App.Install.Warnings.{keys}
use mcpurl.App.Session.Names.{inserted, at_most}

mem-inserted : (x : Bytes) (l : List Bytes) → Memᴰ x (inserted x l)
unfolding inserted
mem-inserted x [] = Memᴰ.head refl
mem-inserted x (y ∷ l) = elim (Bool-cases (at_most x y)) [
  | inl e ↦ rw e (Memᴰ.head refl)
  | inr e ↦ rw e (Memᴰ.tail (mem-inserted x l))
]

mem-inserted_of_mem : (x y : Bytes) (l : List Bytes) → Memᴰ x l → Memᴰ x (inserted y l)
unfolding inserted
mem-inserted_of_mem x y [] h = elim h [ ]
mem-inserted_of_mem x y (z ∷ l) h = elim (Bool-cases (at_most y z)) [
  | inl e ↦ rw e (Memᴰ.tail h)
  | inr e ↦ rw e (elim (Memᴰ.cases_cons h) [
    | inl q ↦ Memᴰ.head q
    | inr t ↦ Memᴰ.tail (mem-inserted_of_mem x y l t)
  ])
]

later : (x z : Bytes) (l : List Bytes) → (x ≡ z) ⊎ Memᴰ x l → Memᴰ x (z ∷ l)
later x z l (inl e) = Memᴰ.head e
later x z l (inr t) = Memᴰ.tail t

pushed :
    (x y z : Bytes) (l : List Bytes) → (x ≡ z) ⊎ ((x ≡ y) ⊎ Memᴰ x l) → (x ≡ y) ⊎ Memᴰ x (z ∷ l)
pushed x y z l (inl e) = inr (Memᴰ.head e)
pushed x y z l (inr (inl e)) = inl e
pushed x y z l (inr (inr t)) = inr (Memᴰ.tail t)

below :
    (x z : Bytes) (l : List Bytes) (P : Type 0) → (Memᴰ x l → P) → (x ≡ z) ⊎ Memᴰ x l → (x ≡ z) ⊎ P
below x z l P f (inl e) = inl e
below x z l P f (inr t) = inr (f t)

inserted-cases : (x y : Bytes) (l : List Bytes) → Memᴰ x (inserted y l) → (x ≡ y) ⊎ Memᴰ x l
unfolding inserted
inserted-cases x y [] h = inl (Memᴰ.eq_of_singleton h)
inserted-cases x y (z ∷ l) h = elim (Bool-cases (at_most y z)) [
  | inl e ↦ Memᴰ.cases_cons (rw e at h)
  | inr e ↦ pushed x y z l (
      below x z (inserted y l) ((x ≡ y) ⊎ Memᴰ x l) (inserted-cases x y l)
        (Memᴰ.cases_cons (rw e at h)))
]

pub keys-lookup : (k : Bytes) (v : Value) (ms : Members) → lookup k ms ≡ some v → Memᴰ k (keys ms)
unfolding keys lookup
keys-lookup k v empty h = ground arith
keys-lookup k v (member n w ms) h = elim (equal-cases n k) [
  | inl e ↦ Memᴰ.cast (sym e.1) (mem-inserted n (keys ms))
  | inr e ↦ mem-inserted_of_mem k n (keys ms) (keys-lookup k v ms (rw e.0 at h))
]

-- A key is there with a value.
pub lookup-keys :
    (k : Bytes) (ms : Members) → Memᴰ k (keys ms) → (v : Value) × (lookup k ms ≡ some v)
unfolding keys lookup
lookup-keys k empty h = absurd (Memᴰ.not-nil h)
lookup-keys k (member n w ms) h = elim (equal-cases n k) [
  | inl e ↦ (w, rw e.0 refl)
  | inr e ↦ elim (inserted-cases k n (keys ms) h) [
    | inl q ↦ absurd (e.1 (sym q))
    | inr t ↦ (let r = lookup-keys k ms t in (r.0, rw e.0 r.1))
  ]
]
