-- ===== src/App/Session/Names.antt =====
-- pkg/app/profile.go: `Names`, the names of the profiles in order.
use mcpurl.Prelude.{Bool, true, false, ◌&&◌, ◌||◌, List, [], ◌∷◌, ltb, ◌==◌, if◌then◌else◌}
use mcpurl.Prelude.Bytes.{Bytes}

-- `<=` on strings.
unfoldable pub at_most : Bytes → Bytes → Bool
at_most [] t = true
at_most (c ∷ s) [] = false
at_most (c ∷ s) (d ∷ t) = ltb c d || c == d && at_most s t

unfoldable pub inserted : Bytes → List Bytes → List Bytes
unfolding at_most
inserted s [] = s ∷ []
inserted s (t ∷ l) = let rest = inserted s l in if at_most s t then s ∷ t ∷ l else t ∷ rest

-- `slices.Sorted(maps.Keys(h))`
unfoldable pub sorted_keys : {A : Type 0} → List (Bytes × A) → List Bytes
unfolding inserted
sorted_keys [] = []
sorted_keys ((k, x) ∷ h) = inserted k (sorted_keys h)
