-- ===== src/Planning/Cycle/Orders.antt =====
-- Orders of a dependency graph, the latest id first: each id has its dependencies before it. There is
-- none with an id of a cycle.
use run_forge.Common.{
  ◌≡◌, true, List, [], ◌∷◌, ◌++◌, String, str_eq, inl, inr, arith, Bool-cases, subst,
}
use run_forge.Planning.Graph.{member, str_eq-eq}
use run_forge.Planning.Cycle.Chains.{IsChain}

module _ (deps : String → List String) where
  abbrev pub IsOrdered : List String → Type 0
  IsOrdered [] = Unit
  IsOrdered (v ∷ vs) = ((d : String) → member d (deps v) ≡ true → member d vs ≡ true) × IsOrdered vs

  -- What an id of the order depends on stands in it too.
  pub IsOrdered-closed :
      (vs : List String) (a b : String)
      → IsOrdered vs
      → member a vs ≡ true
      → member b (deps a) ≡ true
      → member b vs ≡ true
  unfolding member
  IsOrdered-closed [] a b o m e = cc
  IsOrdered-closed (v ∷ vs) a b o m e = elim (Bool-cases (str_eq v a)) [
    | inl same ↦
        let e' : member b (deps v) ≡ true = rw (str_eq-eq v a same) e in
        rw (o.0 b e') (ground arith)
    | inr other ↦ rw (IsOrdered-closed vs a b o.1 (rw other at m) e) (ground arith)
  ]

  pub IsOrdered-reach :
      (vs : List String) (a : String) (mid : List String) (z : String)
      → IsOrdered vs
      → member a vs ≡ true
      → IsChain deps (a ∷ (mid ++ z ∷ []))
      → member z vs ≡ true
  IsOrdered-reach vs a [] z o m c = IsOrdered-closed vs a z o m c.0
  IsOrdered-reach vs a (b ∷ mid) z o m c =
      IsOrdered-reach vs b mid z o (IsOrdered-closed vs a b o m c.0) c.1

  -- The last id of a chain from `x` stands before `x`.
  step_back :
      (vs : List String) (x : String) (mid : List String) (z : String)
      → ((d : String) → member d (deps x) ≡ true → member d vs ≡ true)
      → IsOrdered vs
      → IsChain deps (x ∷ (mid ++ z ∷ []))
      → member z vs ≡ true
  step_back vs x [] z before o c = before z c.0
  step_back vs x (y ∷ mid) z before o c = IsOrdered-reach vs y mid z o (before y c.0) c.1

  pub not-cycle :
      (vs : List String) (x : String) (mid : List String)
      → IsOrdered vs
      → member x vs ≡ true
      → ¬ IsChain deps (x ∷ (mid ++ x ∷ []))
  unfolding member
  not-cycle [] x mid o m c = cc
  not-cycle (v ∷ vs) x mid o m c = elim (Bool-cases (str_eq v x)) [
    | inl same ↦
        let before =
          subst (λ (u : String). (d : String) → member d (deps u) ≡ true → member d vs ≡ true)
            (str_eq-eq v x same) o.0 in
        not-cycle vs x mid o.1 (step_back vs x mid x before o.1 c) c
    | inr other ↦ not-cycle vs x mid o.1 (rw other at m) c
  ]
