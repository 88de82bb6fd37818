-- ===== src/Planning/Topo/Initial.antt =====
-- The state before the first round of `topoSortPlan`, for a plan whose ids are distinct.
use run_forge.Common.Text.{str_eq_self}
use run_forge.Common.{
  ◌+◌, ◌≤◌, ◌≡◌, refl, sym, subst, true, false, ◌||◌, some, List, [], ◌∷◌, ◌++◌, map, String,
  length, str_eq, inl, inr, ◌⊎◌, arith, Bool-cases, All,
}
use run_forge.Planning.Graph.{
  GraphNode, member, get, deps_of, ids, get-eq_none, str_eq-eq, member-cons_self, member-cons,
}
use run_forge.Planning.Cycle.Chains.{member-append}
use run_forge.Planning.Validate.Laws.{IsUnique}
use run_forge.Planning.Topo.{Missing, is_nil, put, to_set, entries, initial}
use run_forge.Planning.Topo.Rounds.{IsEntry, IsSorting, pending, nil_member}

IsUnique-fresh :
    (seen xs : List String) (x : String)
    → IsUnique seen xs
    → member x seen ≡ true
    → member x xs ≡ false
unfolding member
IsUnique-fresh seen [] x u m = refl
IsUnique-fresh seen (y ∷ ys) x (new, u) m = elim (Bool-cases (str_eq y x)) [
  | inl e ↦
      let m' : member y seen ≡ true =
        subst (λ (z : String). member z seen ≡ true) (sym (str_eq-eq y x e)) m in
      cc
  | inr e ↦ rw e (IsUnique-fresh (y ∷ seen) ys x u (member-cons x y seen m))
]

-- Each node of a plan with distinct ids is the one that its id names.
get_own :
    (seen : List String) (nodes : List GraphNode)
    → IsUnique seen (ids nodes)
    → All (λ (n : GraphNode). get nodes n.id ≡ some n.depends_on) nodes
unfolding get
get_own seen [] u = tt
get_own seen (n ∷ ns) (new, u) = (
  rw
      (
        get-eq_none ns n.id
            (IsUnique-fresh (n.id ∷ seen) (ids ns) n.id u (member-cons_self n.id seen)),
        str_eq_self n.id,
      )
      refl,
  later ns (get_own (n.id ∷ seen) ns u),
)
  where
    later :
        (ms : List GraphNode)
        → All (λ (m : GraphNode). get ns m.id ≡ some m.depends_on) ms
        → All (λ (m : GraphNode). get (n ∷ ns) m.id ≡ some m.depends_on) ms
    later [] h = tt
    later (m ∷ ms) (h, hs) = (rw (h, get) refl, later ms hs)

member-to_set :
    (d : String) (seen xs : List String)
    → member d (to_set seen xs) ≡ (member d seen || member d xs)
unfolding member to_set
member-to_set d seen [] = ground arith
member-to_set d seen (x ∷ xs) = elim (Bool-cases (member x seen)) [
  | inl m ↦ rw m (rw (member-to_set d seen xs) (old (Bool-cases (str_eq x d)) m))
  | inr n ↦
      rw n (rw (member-to_set d (seen ++ x ∷ []) xs, member-append d seen (x ∷ [])) (ground arith))
]
  where
    old :
        (str_eq x d ≡ true) ⊎ (str_eq x d ≡ false)
        → member x seen ≡ true
        → (member d seen || member d xs) ≡ (member d seen || (str_eq x d || member d xs))
    old (inl e) m =
        let m' : member d seen ≡ true =
          subst (λ (z : String). member z seen ≡ true) (str_eq-eq x d e) m in
        rw m' refl
    old (inr e) m = rw e refl

member-to_set_nil : (d : String) (xs : List String) → member d (to_set [] xs) ≡ member d xs
unfolding member
member-to_set_nil d xs = member-to_set d [] xs

module _ (deps : String → List String) (ready : List String) where
  abbrev IsFresh : Missing → Type 0
  IsFresh e =
      ((d : String) → member d e.deps ≡ member d (deps e.id))
      × (e.deps ≡ [] → member e.id ready ≡ true)

  put-IsFresh :
      (e : Missing) (es : List Missing) → IsFresh e → All IsFresh es → All IsFresh (put e es)
  unfolding put
  put-IsFresh e [] h hs = (h, tt)
  put-IsFresh e (f ∷ es) h (g, hs) = elim (Bool-cases (str_eq f.id e.id)) [
    | inl same ↦ rw same (h, hs)
    | inr other ↦ rw other (g, put-IsFresh e es h hs)
  ]

  -- `to_set` empties no list.
  to_set_nil : (xs : List String) → to_set [] xs ≡ [] → is_nil xs ≡ true
  unfolding member
  to_set_nil [] h = refl
  to_set_nil (x ∷ xs) h =
      let m = member-to_set x [] (x ∷ xs) in
      let n : false ≡ (str_eq x x || member x xs) = rw h at m in
      let s = str_eq_self x in ground (arith, n, s)

  entries-IsFresh :
      (es : List Missing) (ns : List GraphNode)
      → All IsFresh es
      → All (λ (n : GraphNode). deps n.id ≡ n.depends_on) ns
      → All (λ (n : GraphNode). is_nil n.depends_on ≡ true → member n.id ready ≡ true) ns
      → All IsFresh (entries es ns)
  unfolding entries
  entries-IsFresh es [] h own start = h
  entries-IsFresh es (n ∷ ns) h (own, owns) (start, starts) =
      entries-IsFresh (put e es) ns
        (put-IsFresh e es
          (
            (λ d. rw own (member-to_set_nil d n.depends_on)),
            λ nil. start (to_set_nil n.depends_on nil),
          )
          h)
        owns starts
    where
      e : Missing
      e = record { id = n.id; deps = to_set [] n.depends_on }

  All-IsEntry : (es : List Missing) → All IsFresh es → All (IsEntry deps [] ready) es
  unfolding member
  All-IsEntry [] h = tt
  All-IsEntry (e ∷ es) ((same, free), hs) = (
    record { missing = λ d m. rw (same d) m; needed = λ d m. (rw (← same d) m, refl); free = free },
    All-IsEntry es hs,
  )

-- The nodes without a dependency are ready, and stand for nothing else.
initial_ready :
    (ns : List GraphNode) (ready : List String)
    → ((x : String) → member x (initial ns) ≡ true → member x ready ≡ true)
    → All (λ (n : GraphNode). is_nil n.depends_on ≡ true → member n.id ready ≡ true) ns
unfolding member
initial_ready [] ready sub = tt
initial_ready (n ∷ ns) ready sub = (
  λ e. sub n.id (rw e (rw (str_eq_self n.id) refl)),
  initial_ready ns ready (λ x m. sub x (keep x m (Bool-cases (is_nil n.depends_on)))),
)
  where
    keep :
        (x : String)
        → member x (initial ns) ≡ true
        → (is_nil n.depends_on ≡ true) ⊎ (is_nil n.depends_on ≡ false)
        → member x (initial (n ∷ ns)) ≡ true
    keep x m (inl e) = rw e (ground (arith, m))
    keep x m (inr e) = rw e m

initial_free :
    (deps : String → List String) (ns : List GraphNode)
    → All (λ (n : GraphNode). deps n.id ≡ n.depends_on) ns
    → (x : String) → member x (initial ns) ≡ true
    → (d : String) → member d (deps x) ≡ true
    → member d [] ≡ true
unfolding member
initial_free deps [] own x m d dep = cc
initial_free deps (n ∷ ns) (own, owns) x m d dep = elim (Bool-cases (is_nil n.depends_on)) [
  | inl e ↦ elim (Bool-cases (str_eq n.id x)) [
    | inl same ↦
        let at : member d n.depends_on ≡ true =
          subst (λ (ds : List String). member d ds ≡ true) own
            (subst (λ (y : String). member d (deps y) ≡ true) (sym (str_eq-eq n.id x same)) dep) in
        ground (arith, nil_member d n.depends_on e, at)
    | inr other ↦ initial_free deps ns owns x (rw other at (rw e at m)) d dep
  ]
  | inr e ↦ initial_free deps ns owns x (rw e at m) d dep
]

own_deps :
    (nodes ns : List GraphNode)
    → All (λ (n : GraphNode). get nodes n.id ≡ some n.depends_on) ns
    → All (λ (n : GraphNode). deps_of nodes n.id ≡ n.depends_on) ns
unfolding deps_of
own_deps nodes [] h = tt
own_deps nodes (n ∷ ns) (h, hs) = (rw h refl, own_deps nodes ns hs)

pub IsSorting-initial :
    (nodes : List GraphNode)
    → IsUnique [] (ids nodes)
    → IsSorting (deps_of nodes) [] (initial nodes) (entries [] nodes)
IsSorting-initial nodes u =
    let own = own_deps nodes nodes (get_own [] nodes u) in
    record {
      ordered = tt;
      entries = All-IsEntry (deps_of nodes) (initial nodes) (entries [] nodes) (
          entries-IsFresh (deps_of nodes) (initial nodes) [] nodes tt own
            (initial_ready nodes (initial nodes) (λ x m. m)));
      waiting = initial_free (deps_of nodes) nodes own;
    }

-- Every id of the plan has an entry.
member-put :
    (x : String) (e : Missing) (es : List Missing)
    → member x (map (λ f. f.id) es) ≡ true
    → member x (map (λ f. f.id) (put e es)) ≡ true
unfolding member put
member-put x e [] m = cc
member-put x e (f ∷ es) m = elim (Bool-cases (str_eq f.id e.id)) [
  | inl same ↦ rw same (rw (← str_eq-eq f.id e.id same) m)
  | inr other ↦ rw other (ground (arith, member-put x e es))
]

member-put_self :
    (e : Missing) (es : List Missing) → member e.id (map (λ f. f.id) (put e es)) ≡ true
unfolding member put
member-put_self e [] = rw (str_eq_self e.id) refl
member-put_self e (f ∷ es) = elim (Bool-cases (str_eq f.id e.id)) [
  | inl same ↦ rw same (rw (str_eq_self e.id) refl)
  | inr other ↦ rw other (rw (member-put_self e es) (ground arith))
]

entries_kept :
    (x : String) (es : List Missing) (ns : List GraphNode)
    → member x (map (λ f. f.id) es) ≡ true
    → member x (map (λ f. f.id) (entries es ns)) ≡ true
unfolding entries
entries_kept x es [] m = m
entries_kept x es (n ∷ ns) m =
    entries_kept x (put (record { id = n.id; deps = to_set [] n.depends_on }) es) ns
      (member-put x (record { id = n.id; deps = to_set [] n.depends_on }) es m)

pub entries_ids :
    (x : String) (es : List Missing) (ns : List GraphNode)
    → member x (ids ns) ≡ true
    → member x (map (λ f. f.id) (entries es ns)) ≡ true
unfolding entries member
entries_ids x es [] m = cc
entries_ids x es (n ∷ ns) m = elim (Bool-cases (str_eq n.id x)) [
  | inl same ↦ entries_kept x (put e es) ns (
      subst (λ (y : String). member y (map (λ (f : Missing). f.id) (put e es)) ≡ true)
        (str_eq-eq n.id x same) (member-put_self e es))
  | inr other ↦ entries_ids x (put e es) ns (rw other at m)
]
  where
    e : Missing
    e = record { id = n.id; deps = to_set [] n.depends_on }

-- The fuel is enough: there are no more ready ids, and no more entries, than nodes.
pub initial_le : (ns : List GraphNode) → length (initial ns) ≤ length ns
initial_le [] = omega arith
initial_le (n ∷ ns) = ground (arith, initial_le ns)

put_le : (e : Missing) (es : List Missing) → pending (put e es) ≤ pending es + 1
unfolding put
put_le e [] = ground arith
put_le e (f ∷ es) = ground (arith, put_le e es)

pub entries_le :
    (es : List Missing) (ns : List GraphNode) → pending (entries es ns) ≤ pending es + length ns
unfolding entries
entries_le es [] = omega arith
entries_le es (n ∷ ns) =
    let e : Missing = record { id = n.id; deps = to_set [] n.depends_on } in
    omega (arith, put_le e es, entries_le (put e es) ns)
