-- ===== src/Planning/Cycle/Chains.antt =====
-- Chains of dependencies, and the stack of the search as a chain.
use run_forge.Common.{
  ◌≡◌, refl, true, ◌||◌, List, [], ◌∷◌, ◌++◌, String, str_eq, inl, inr, arith, Bool-cases, ap,
}
use run_forge.Planning.Graph.{member, str_eq-eq}
use run_forge.Planning.Cycle.{from_index, pop}

pub pop-append : (xs : List String) (x : String) → pop (xs ++ x ∷ []) ≡ xs
unfolding pop
pop-append [] x = refl
pop-append (y ∷ []) x = refl
pop-append (y ∷ z ∷ xs) x = ap (λ r. y ∷ r) (pop-append (z ∷ xs) x)

pub member-append :
    (id : String) (xs ys : List String) → member id (xs ++ ys) ≡ (member id xs || member id ys)
unfolding member
member-append id [] ys = refl
member-append id (x ∷ xs) ys = ground (arith, member-append id xs ys)

module _ (deps : String → List String) where
  -- Each id of the list depends on the next one.
  abbrev pub IsChain : List String → Type 0
  IsChain [] = Unit
  IsChain (x ∷ []) = Unit
  IsChain (x ∷ y ∷ xs) = (member y (deps x) ≡ true) × IsChain (y ∷ xs)

  -- A chain that ends where it starts.
  abbrev pub IsCycle : List String → Type 0
  IsCycle c = (x : String) × (mid : List String) × (c ≡ x ∷ (mid ++ x ∷ [])) × IsChain c

  pub IsChain-tail : (x : String) (xs : List String) → IsChain (x ∷ xs) → IsChain xs
  IsChain-tail x [] h = tt
  IsChain-tail x (y ∷ xs) h = h.1

  pub IsChain-append :
      (xs : List String) (id d : String)
      → IsChain (xs ++ id ∷ [])
      → member d (deps id) ≡ true
      → IsChain ((xs ++ id ∷ []) ++ d ∷ [])
  IsChain-append [] id d h e = (e, tt)
  IsChain-append (x ∷ []) id d h e = (h.0, (e, tt))
  IsChain-append (x ∷ y ∷ xs) id d h e = (h.0, IsChain-append (y ∷ xs) id d h.1 e)

  -- The part of the stack from an id that stands on it, closed by that id, is a cycle.
  pub from_index-IsCycle :
      (id : String) (stack : List String)
      → member id stack ≡ true
      → IsChain (stack ++ id ∷ [])
      → IsCycle (from_index id stack ++ id ∷ [])
  unfolding from_index member
  from_index-IsCycle id [] m h = cc
  from_index-IsCycle id (x ∷ xs) m h = elim (Bool-cases (str_eq x id)) [
    | inl e ↦ rw (e, from_index) (id, xs, rw (str_eq-eq x id e) refl, h)
    | inr e ↦
        rw (e, from_index) (from_index-IsCycle id xs (rw e at m) (IsChain-tail x (xs ++ id ∷ []) h))
  ]
