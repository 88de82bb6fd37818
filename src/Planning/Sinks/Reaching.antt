-- ===== src/Planning/Sinks/Reaching.antt =====
-- `transitiveDependencies` collects exactly what an id depends on, directly or through others.
use run_forge.Common.{
  ℕ, zero, suc, ◌+◌, ◌≤◌, ◌≡◌, ◌↔◌, refl, sym, subst, true, false, Option, some, List, [], ◌∷◌,
  String, str_eq, length, inl, inr, ◌⊎◌, arith, Bool-cases,
}
use run_forge.Planning.Graph.{
  GraphNode, member, deps_of, ids, deps_of-unknown, str_eq-eq, member-cons_self, member-cons,
}
use native.Mathlib.Nat.{le_trans}
use run_forge.Planning.Cycle.Walks.{unseen, unseen-cons_lt}
use run_forge.Planning.Cycle.Laws.{unseen-ids_le}
use run_forge.Planning.Sinks.{each_new, transitive, transitive_dependencies}

-- `x` is a dependency of `root`, or of a dependency of it, and so on.
pub data Reaches (deps : String → List String) (root : String) : String → Type 0 where
  direct : (x : String) → member x (deps root) ≡ true → Reaches deps root x
  onward :
      {y : String} (x : String)
      → Reaches deps root y
      → member x (deps y) ≡ true
      → Reaches deps root x

unseen_mono :
    (ks s t : List String)
    → ((x : String) → member x s ≡ true → member x t ≡ true)
    → unseen ks t ≤ unseen ks s
unseen_mono [] s t h = omega arith
unseen_mono (k ∷ ks) s t h = ground (arith, unseen_mono ks s t h, h k)

module _ (deps : String → List String) (keys : List String)
    (known : (id : String) → member id keys ≡ false → deps id ≡ []) (root : String) where
  abbrev AllReached : List String → Type 0
  AllReached seen = (x : String) → member x seen ≡ true → Reaches deps root x

  -- `t` extends `seen` by reachable ids, each with all of its dependencies.
  record IsGrown (seen t : List String) : Type 0 where
    kept : (x : String) → member x seen ≡ true → member x t ≡ true
    reached : AllReached t
    closed :
        (x d : String)
        → member x t ≡ true
        → member x seen ≡ false
        → member d (deps x) ≡ true
        → member d t ≡ true

  abbrev Extends : Option (List String) → List String → List String → Type 0
  Extends o seen ds =
      (t : List String) × (o ≡ some t)
      × IsGrown seen t
      × ((d : String) → member d ds ≡ true → member d t ≡ true)

  IsGrown-enter :
      (d : String) (seen t : List String)
      → IsGrown (d ∷ seen) t
      → ((x : String) → member x (deps d) ≡ true → member x t ≡ true)
      → IsGrown seen t
  unfolding member
  IsGrown-enter d seen t g below = record {
    kept = λ x h. g.kept x (rw h (ground arith));
    reached = g.reached;
    closed = λ x e m n dep. closed_at x e m n dep (Bool-cases (str_eq d x));
  }
    where
      closed_at :
          (x e : String)
          → member x t ≡ true
          → member x seen ≡ false
          → member e (deps x) ≡ true
          → (str_eq d x ≡ true) ⊎ (str_eq d x ≡ false)
          → member e t ≡ true
      closed_at x e m n dep (inl same) =
          below e (subst (λ (y : String). member e (deps y) ≡ true) (sym (str_eq-eq d x same)) dep)
      closed_at x e m n dep (inr other) = g.closed x e m (rw (other, n) refl) dep

  IsGrown-trans : (s t u : List String) → IsGrown s t → IsGrown t u → IsGrown s u
  IsGrown-trans s t u g h = record {
    kept = λ x m. h.kept x (g.kept x m);
    reached = h.reached;
    closed = λ x d m n dep. closed_at x d m n dep (Bool-cases (member x t));
  }
    where
      closed_at :
          (x d : String)
          → member x u ≡ true
          → member x s ≡ false
          → member d (deps x) ≡ true
          → (member x t ≡ true) ⊎ (member x t ≡ false)
          → member d u ≡ true
      closed_at x d m n dep (inl old) = h.kept d (g.closed x d old n dep)
      closed_at x d m n dep (inr new) = h.closed x d m new dep

  covers_cons :
      (d : String) (ds t : List String)
      → member d t ≡ true
      → ((x : String) → member x ds ≡ true → member x t ≡ true)
      → (x : String) → member x (d ∷ ds) ≡ true
      → member x t ≡ true
  unfolding member
  covers_cons d ds t now later x h = elim (Bool-cases (str_eq d x)) [
    | inl e ↦ subst (λ (y : String). member y t ≡ true) (str_eq-eq d x e) now
    | inr e ↦ later x (rw e at h)
  ]

  no_member : (d : String) (t : List String) → member d [] ≡ true → member d t ≡ true
  unfolding member
  no_member d t m = cc

  each_new-Extends :
      (bound : ℕ) (visit : String → List String → Option (List String))
      → ((d : String) (t : List String)
          → member d t ≡ false
          → Reaches deps root d
          → AllReached t
          → unseen keys t ≤ bound
          → Extends (visit d (d ∷ t)) (d ∷ t) (deps d))
      → (ds seen : List String) → AllReached ds
      → AllReached seen
      → unseen keys seen ≤ bound
      → Extends (each_new visit ds seen) seen ds
  unfolding each_new
  each_new-Extends bound visit rec [] seen rs r b = (
    seen,
    refl,
    record { kept = λ x m. m; reached = r; closed = λ x d m n dep. cc },
    λ d m. no_member d seen m,
  )
  each_new-Extends bound visit rec (d ∷ ds) seen rs r b = elim (Bool-cases (member d seen)) [
    | inl old ↦
        let (t, e, g, all) =
          each_new-Extends bound visit rec ds seen (λ x m. rs x (member-cons x d ds m)) r b in
        (t, rw old e, g, covers_cons d ds t (g.kept d old) all)
    | inr new ↦
        let (u, eu, gu, below) = rec d seen new (rs d (member-cons_self d ds)) r b in
        let (t, e, g, all) =
          each_new-Extends bound visit rec ds u (λ x m. rs x (member-cons x d ds m)) gu.reached
            (le_trans (unseen_mono keys seen u (λ x m. gu.kept x (member-cons x d seen m))) b) in
        (
          t,
          rw (new, eu, each_new) e,
          IsGrown-trans seen u t (IsGrown-enter d seen u gu below) g,
          covers_cons d ds t (g.kept d (gu.kept d (member-cons_self d seen))) all,
        )
  ]

  reached_cons :
      (d : String) (t : List String) → Reaches deps root d → AllReached t → AllReached (d ∷ t)
  unfolding member
  reached_cons d t at inv x m = elim (Bool-cases (str_eq d x)) [
    | inl e ↦ subst (Reaches deps root) (str_eq-eq d x e) at
    | inr e ↦ inv x (rw e at m)
  ]

  enough :
      (fuel : ℕ) (d : String) (t : List String) {bound : ℕ}
      → member d t ≡ false
      → unseen keys t ≤ bound
      → bound + 1 ≤ fuel
      → ((deps d ≡ []) × (1 ≤ fuel)) ⊎ (unseen keys (d ∷ t) + 2 ≤ fuel)
  enough fuel d t new b f = elim (Bool-cases (member d keys)) [
    | inl key ↦ inr (omega (arith, unseen-cons_lt keys t d key new))
    | inr leaf ↦ inl (known d leaf, omega arith)
  ]

  -- A call with fuel for the ids that are not yet seen, or for an id with no dependency.
  transitive-Extends :
      (fuel : ℕ) (id : String) (seen : List String)
      → ((deps id ≡ []) × (1 ≤ fuel)) ⊎ (unseen keys seen + 2 ≤ fuel)
      → AllReached (deps id)
      → AllReached seen
      → Extends (transitive deps fuel id seen) seen (deps id)
  unfolding transitive
  transitive-Extends zero id seen (inl f) rs r = absurd (omega arith)
  transitive-Extends zero id seen (inr f) rs r = absurd (omega arith)
  transitive-Extends (suc fuel) id seen (inl (e, f)) rs r =
      rw (e, each_new)
        (
          seen,
          refl,
          record { kept = λ x m. m; reached = r; closed = λ x d m n dep. cc },
          λ d m. no_member d seen m,
        )
  transitive-Extends (suc fuel) id seen (inr f) rs r =
      each_new-Extends (unseen keys seen) (transitive deps fuel)
        (λ d t new at inv b.
          transitive-Extends fuel d (d ∷ t) (enough fuel d t new b (omega arith))
            (λ x m. onward x at m) (reached_cons d t at inv))
        (deps id) seen rs r (omega arith)

reached_closed :
    (nodes : List GraphNode) (root : String) (t : List String)
    → IsGrown (deps_of nodes) (ids nodes) (deps_of-unknown nodes) root [] t
    → ((d : String) → member d (deps_of nodes root) ≡ true → member d t ≡ true)
    → {x : String} → Reaches (deps_of nodes) root x
    → member x t ≡ true
unfolding member
reached_closed nodes root t g all (direct x m) = all x m
reached_closed nodes root t g all (onward {y} x r m) =
    g.closed y x (reached_closed nodes root t g all r) refl m

no_true : false ≡ true → ⊥
no_true e = cc

-- The search of the dependencies of a node always ends, and collects an id exactly when the node
-- depends on it, directly or through other nodes.
pub transitive_dependencies_iff :
    (nodes : List GraphNode) (root : String)
    → (found : List String) × (transitive_dependencies nodes root ≡ some found)
      × ((x : String) → (member x found ≡ true) ↔ Reaches (deps_of nodes) root x)
unfolding transitive_dependencies member
transitive_dependencies_iff nodes root =
    let (found, e, g, all) =
      transitive-Extends (deps_of nodes) (ids nodes) (deps_of-unknown nodes) root (length nodes + 2)
        root [] (inr (omega (arith, unseen-ids_le nodes))) (λ x m. direct x m)
        (λ x m. absurd (no_true m)) in
    (found, e, λ x. (g.reached x, reached_closed nodes root found g all))
