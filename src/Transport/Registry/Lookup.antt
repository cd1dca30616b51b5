-- ===== src/Transport/Registry/Lookup.antt =====
-- Every backend that `NewRegistry` takes is found under its kind.
use fido_go.Base.{
  ◌≡◌, sym, inl, inr, true, false, Option, none, some, List, [], ◌∷◌, ◌++◌, arith, Bool-cases,
  equal_bytes, equal_bytes_refl, ok,
}
use fido_go.Transport.Registry.{
  Kind, Backend, Registry, find, is_registered, register, new_registry,
}

module _ {Device Session E : Type 0} where
  -- Looked up by its kind in `registry`, each of these backends is found.
  pub data Found (registry : Registry Device Session E) : Registry Device Session E → Type 0 where
    none_left : Found registry []
    found :
        {b : Backend Device Session E} {bs : Registry Device Session E}
        → find b.kind registry ≡ some b
        → Found registry bs
        → Found registry (b ∷ bs)

  find-append :
      (kind : Kind) (registry added : Registry Device Session E) (b : Backend Device Session E)
      → find kind registry ≡ some b
      → find kind (registry ++ added) ≡ some b
  unfolding find
  find-append kind [] added b h = absurd (ground (arith, h))
  find-append kind (c ∷ cs) added b h = ground (arith, h, find-append kind cs added b)

  find_last :
      (kind : Kind) (registry : Registry Device Session E) (b : Backend Device Session E)
      → is_registered kind registry ≡ false
      → equal_bytes b.kind kind ≡ true
      → find kind (registry ++ b ∷ []) ≡ some b
  unfolding find is_registered
  find_last kind [] b h e = ground (arith, e)
  find_last kind (c ∷ cs) b h e = elim (Bool-cases (equal_bytes c.kind kind)) [
    | inl same ↦ absurd (ground (arith, h, same))
    | inr other ↦ ground (arith, other, find_last kind cs b (ground (arith, h, other)) e)
  ]

  Found-append :
      (registry bs : Registry Device Session E) (b : Backend Device Session E)
      → Found registry bs
      → is_registered b.kind registry ≡ false
      → Found (registry ++ b ∷ []) (bs ++ b ∷ [])
  Found-append registry [] b none_left h =
      found (find_last b.kind registry b h (equal_bytes_refl b.kind)) none_left
  Found-append registry (c ∷ cs) b (found e rest) h =
      found (find-append c.kind registry (b ∷ []) c e) (Found-append registry cs b rest h)

  register-Found :
      (registry result : Registry Device Session E)
      (backends : List (Option (Backend Device Session E)))
      → Found registry registry
      → register registry backends ≡ ok result
      → Found result result
  unfolding register
  register-Found registry result [] f h =
      let same : registry ≡ result = ground (arith, h) in rw (sym same) f
  register-Found registry result (none ∷ rest) f h = absurd (ground (arith, h))
  register-Found registry result (some b ∷ rest) f h =
      elim (Bool-cases (is_registered b.kind registry)) [
        | inl twice ↦ absurd (ground (arith, h, twice))
        | inr once ↦
            register-Found (registry ++ b ∷ []) result rest
              (Found-append registry registry b f once) (ground (arith, h, once))
      ]

  -- In a registry that NewRegistry makes, every backend is found under its own kind.
  pub new_registry-Found :
      (backends : List (Option (Backend Device Session E))) (registry : Registry Device Session E)
      → new_registry backends ≡ ok registry
      → Found registry registry
  unfolding new_registry
  new_registry-Found backends registry h = register-Found [] registry backends none_left h
