-- ===== src/ComputeInstance/Version/Hash.antt =====
-- The hash of the spec (internal/controller/computeinstance_controller.go).
use cloudkit_operator.Prelude.{ℕ, List, [], ◌∷◌, ◌++◌, ◌≡◌, refl}
use cloudkit_operator.ComputeInstance.Version.{fnv1a, fnv1a_from, version_of}

-- published test vectors of FNV-1a
fnv1a_a : fnv1a (97 ∷ []) ≡ 0xaf63dc4c8601ec8c
unfolding fnv1a
fnv1a_a = refl

version_a : version_of (97 ∷ []) ≡ "af63dc4c8601ec8c"
unfolding version_of
version_a = refl

-- Writing two pieces one after the other hashes the whole.
pub fnv1a_from-append :
    (hash : ℕ) (xs ys : List ℕ) → fnv1a_from hash (xs ++ ys) ≡ fnv1a_from (fnv1a_from hash xs) ys
unfolding fnv1a_from
fnv1a_from-append hash [] ys = refl
fnv1a_from-append hash (x ∷ xs) ys = fnv1a_from-append (fnv1a_from hash (x ∷ [])) xs ys
