-- ===== src/Planning/Topo/Laws.antt =====
-- The rounds of the sort end, and list the ids of a plan in order.
use run_forge.Common.{
  ℕ, zero, suc, ◌+◌, ◌≤◌, ◌≡◌, refl, sym, ◌∙◌, subst, true, false, none, some, List, [], ◌∷◌, ◌++◌,
  map, String, or_else, if◌then◌else◌, Option-cases, length, length-append, str_eq, inl, inr, ◌⊎◌,
  arith, Bool-cases, All,
}
use mathlib.Core.List.{reverse, reverse-append}
use run_forge.Planning.Graph.{GraphNode, member, get, deps_of, ids, str_eq-eq, member-cons_self}
use run_forge.Planning.Cycle.{detect_cycle}
use run_forge.Planning.Cycle.Orders.{IsOrdered}
use run_forge.Planning.Cycle.Laws.{detect_cycle_iff}
use run_forge.Planning.Validate.Laws.{IsUnique}
use run_forge.Planning.Topo.{Missing, release, rounds, entries, initial, topo_sort}
use run_forge.Planning.Topo.Rounds.{
  IsEntry, IsSorting, IsSorting-round, pending, release-pending, release-ids,
}
use run_forge.Planning.Topo.Initial.{IsSorting-initial, entries_ids, initial_le, entries_le}

-- The rounds end with their fuel, in a state with nothing ready.
rounds_end :
    (deps : String → List String) (fuel : ℕ) (ready : List String) (es : List Missing)
    (ordered : List String)
    → length ready + pending es + 1 ≤ fuel
    → IsSorting deps (reverse ordered) ready es
    → (order : List String) × (last : List Missing) × (rounds fuel ready es ordered ≡ some order)
      × IsSorting deps (reverse order) [] last
      × (map (λ e. e.id) last ≡ map (λ e. e.id) es)
unfolding rounds
rounds_end deps zero ready es ordered f s = absurd (omega arith)
rounds_end deps (suc fuel) [] es ordered f s = (ordered, es, refl, s, refl)
rounds_end deps (suc fuel) (id ∷ ready) es ordered f s =
    let (order, last, e, sorted, same) =
      rounds_end deps fuel (ready ++ (release id es).1) (release id es).0 (ordered ++ id ∷ [])
        (omega (arith, release-pending id es, length-append ready (release id es).1))
        (subst
          (λ (done : List String).
            IsSorting deps done (ready ++ (release id es).1) (release id es).0)
          (sym (reverse-append ordered (id ∷ [])))
          (IsSorting-round deps id (reverse ordered) ready es s)) in
    (order, last, e, sorted, same ∙ release-ids id es)

-- With nothing ready, an id of an order is listed once its dependencies are.
module _ (deps : String → List String) (keys done : List String)
    (closed : (x d : String)
      → member x keys ≡ true
      → member d (deps x) ≡ true
      → member d keys ≡ true) where
  entry_listed :
      (es : List Missing) (x : String)
      → All (IsEntry deps done []) es
      → member x (map (λ e. e.id) es) ≡ true
      → ((d : String) → member d (deps x) ≡ true → member d done ≡ true)
      → member x done ≡ true
  unfolding member
  entry_listed [] x h m below = cc
  entry_listed (e ∷ es) x (i, hs) m below = elim (Bool-cases (str_eq e.id x)) [
    | inl same ↦
        subst (λ (y : String). member y done ≡ true) (str_eq-eq e.id x same)
          (own e.deps refl (
            subst (λ (y : String). (d : String) → member d (deps y) ≡ true → member d done ≡ true)
              (sym (str_eq-eq e.id x same)) below))
    | inr other ↦ entry_listed es x hs (rw other at m) below
  ]
    where
      own :
          (ds : List String)
          → e.deps ≡ ds
          → ((d : String) → member d (deps e.id) ≡ true → member d done ≡ true)
          → member e.id done ≡ true
      own [] nil below = ground (arith, i.free nil)
      own (d ∷ ds) eq below =
          let in_deps : member d e.deps ≡ true = rw eq (member-cons_self d ds) in
          let (dep, not_yet) = i.needed d in_deps in let listed = below d dep in cc

  all_listed :
      (es : List Missing) (vs : List String)
      → ((x : String) → member x keys ≡ true → member x (map (λ (e : Missing). e.id) es) ≡ true)
      → All (IsEntry deps done []) es
      → IsOrdered deps vs
      → (x : String) → member x keys ≡ true
      → member x vs ≡ true
      → member x done ≡ true
  unfolding member
  all_listed es [] all h o x key m = cc
  all_listed es (v ∷ vs) all h (before, o) x key m = elim (Bool-cases (str_eq v x)) [
    | inl same ↦ entry_listed es x h (all x key) (λ d dep.
        all_listed es vs all h o d (closed x d key dep) (
          before d
            (subst (λ (y : String). member d (deps y) ≡ true) (sym (str_eq-eq v x same)) dep)))
    | inr other ↦ all_listed es vs all h o x key (rw other at m)
  ]

member_of_All :
    (known ds : List String) (d : String)
    → All (λ (x : String). member x known ≡ true) ds
    → member d ds ≡ true
    → member d known ≡ true
unfolding member
member_of_All known [] d h m = cc
member_of_All known (x ∷ ds) d (k, h) m = elim (Bool-cases (str_eq x d)) [
  | inl e ↦ subst (λ (y : String). member y known ≡ true) (str_eq-eq x d e) k
  | inr e ↦ member_of_All known ds d h (rw e at m)
]

-- Each node depends on known ids only.
abbrev pub IsClosed : List String → List GraphNode → Type 0
IsClosed known = All λ n. All (λ d. member d known ≡ true) n.depends_on

deps_known :
    (known : List String) (ns : List GraphNode) (x d : String)
    → IsClosed known ns
    → member d (or_else (get ns x) []) ≡ true
    → member d known ≡ true
unfolding get member
deps_known known [] x d h m = cc
deps_known known (n ∷ ns) x d (k, h) m = elim (Option-cases (get ns x)) [
  | inr (ds, e) ↦ deps_known known ns x d h (rw e (rw (e, get) at m))
  | inl e ↦ here (Bool-cases (str_eq n.id x)) (rw (e, get) at m)
]
  where
    here :
        (str_eq n.id x ≡ true) ⊎ (str_eq n.id x ≡ false)
        → member d (or_else (if str_eq n.id x then some n.depends_on else none) []) ≡ true
        → member d known ≡ true
    here (inl e) m = member_of_All known n.depends_on d k (rw e at m)
    here (inr e) m = let m' = rw e at m in cc

deps_closed :
    (nodes : List GraphNode)
    → IsClosed (ids nodes) nodes
    → (x d : String) → member x (ids nodes) ≡ true
    → member d (deps_of nodes x) ≡ true
    → member d (ids nodes) ≡ true
unfolding deps_of
deps_closed nodes h x d key m = deps_known (ids nodes) nodes x d h m

-- For a plan with distinct ids in which every dependency is a node and no cycle is found, the sort ends,
-- each id that it lists comes after all that it depends on, and it lists every id of the plan.
pub topo_sort_complete :
    (nodes : List GraphNode)
    → IsUnique [] (ids nodes)
    → IsClosed (ids nodes) nodes
    → detect_cycle nodes ≡ []
    → (order : List String) × (topo_sort nodes ≡ some order)
      × IsOrdered (deps_of nodes) (reverse order)
      × ((x : String) → member x (ids nodes) ≡ true → member x (reverse order) ≡ true)
unfolding topo_sort
topo_sort_complete nodes unique closed acyclic =
    let (order, last, e, sorted, same) =
      rounds_end (deps_of nodes) (suc (length nodes + length nodes)) (initial nodes)
        (entries [] nodes) [] (omega (arith, initial_le nodes, entries_le [] nodes))
        (IsSorting-initial nodes unique) in
    let (vs, all, ordered) = (detect_cycle_iff nodes).0 acyclic in
    (
      order,
      e,
      sorted.ordered,
      λ x m.
          all_listed (deps_of nodes) (ids nodes) (reverse order) (deps_closed nodes closed) last vs
            (λ y key. rw same (entries_ids y [] nodes key)) sorted.entries ordered x m (all x m),
    )
