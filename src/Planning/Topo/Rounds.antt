-- ===== src/Planning/Topo/Rounds.antt =====
-- The rounds of `topoSortPlan` keep an invariant that ties the missing dependencies to the ids listed.
use run_forge.Common.Text.{str_eq_self}
use run_forge.Common.{
  ℕ, suc, ◌+◌, ◌≡◌, refl, sym, subst, true, false, ◌||◌, ◌&&◌, List, [], ◌∷◌, ◌++◌, String, map, ap,
  if◌then◌else◌, length, str_eq, inl, inr, ◌⊎◌, arith, Bool-cases, All,
}
use run_forge.Planning.Graph.{
  member, remove, str_eq-eq, str_eq-ne, member-cons_self, member-cons, member-append_left,
}
use run_forge.Planning.Cycle.Chains.{member-append}
use run_forge.Planning.Cycle.Orders.{IsOrdered}
use run_forge.Planning.Topo.{Missing, is_nil, release}

-- The entries that still miss a dependency.
abbrev pub pending : List Missing → ℕ
pending [] = 0
pending (e ∷ es) = let rest = pending es in if is_nil e.deps then rest else suc rest

pub release-pending :
    (id : String) (es : List Missing)
    → pending (release id es).0 + length (release id es).1 ≡ pending es
unfolding release member
release-pending id [] = refl
release-pending id (e ∷ es) = ground (arith, release-pending id es)

pub nil_member : (d : String) (ds : List String) → is_nil ds ≡ true → member d ds ≡ false
unfolding member
nil_member d [] h = refl
nil_member d (x ∷ ds) h = cc

pub member-remove :
    (x id : String) (ds : List String)
    → member x (remove id ds) ≡ (if str_eq id x then false else member x ds)
unfolding member remove
member-remove x id [] = ground arith
member-remove x id (d ∷ ds) = elim (Bool-cases (str_eq d id)) [
  | inl e ↦ rw e (rw (member-remove x id ds, str_eq-eq d id e) (ground arith))
  | inr e ↦ rw e (same (Bool-cases (str_eq d x)) e (member-remove x id ds))
]
  where
    same :
        (str_eq d x ≡ true) ⊎ (str_eq d x ≡ false)
        → str_eq d id ≡ false
        → member x (remove id ds) ≡ (if str_eq id x then false else member x ds)
        → (str_eq d x || member x (remove id ds))
          ≡ (if str_eq id x then false else (str_eq d x || member x ds))
    same (inl h) n ih =
        let other : str_eq id x ≡ false =
          subst (λ (y : String). str_eq id y ≡ false) (str_eq-eq d x h) (str_eq-ne d id n) in
        rw (h, other) refl
    same (inr h) n ih = rw (h, ih) (ground arith)

release_head :
    (id : String) (e : Missing) (es : List Missing)
    → member id e.deps ≡ true
    → remove id e.deps ≡ []
    → member e.id (release id (e ∷ es)).1 ≡ true
unfolding release member
release_head id e es m nil = rw (m, nil) (rw (str_eq_self e.id) refl)

release_tail :
    (id : String) (e : Missing) (es : List Missing) (x : String)
    → member x (release id es).1 ≡ true
    → member x (release id (e ∷ es)).1 ≡ true
unfolding release member
release_tail id e es x k = ground (arith, k)

module _ (deps : String → List String) where
  -- What is known of an entry, `done` being the ids listed so far.
  pub record IsEntry (done ready : List String) (e : Missing) : Type 0 where
    pub missing :
        (d : String) → member d (deps e.id) ≡ true → (member d done || member d e.deps) ≡ true
    pub needed :
        (d : String)
        → member d e.deps ≡ true
        → (member d (deps e.id) ≡ true) × (member d done ≡ false)
    pub free : e.deps ≡ [] → (member e.id done || member e.id ready) ≡ true

  -- An entry from which `id` is deleted.
  IsEntry-remove :
      (id : String) (done ready ready' : List String) (e : Missing)
      → IsEntry done (id ∷ ready) e
      → (remove id e.deps ≡ [] → member e.id ready' ≡ true)
      → IsEntry (id ∷ done) ready' (record e { deps = remove id e.deps })
  unfolding member
  IsEntry-remove id done ready ready' e i out = record {
    missing = λ d m. ground (arith, i.missing d m, member-remove d id e.deps);
    needed = λ d m. ground (arith, i.needed d, member-remove d id e.deps);
    free = λ nil. rw (out nil) (ground arith);
  }

  -- An entry that did not miss `id`.
  IsEntry-keep :
      (id : String) (done ready ready' : List String) (e : Missing)
      → IsEntry done (id ∷ ready) e
      → member id e.deps ≡ false
      → ((x : String) → member x ready ≡ true → member x ready' ≡ true)
      → IsEntry (id ∷ done) ready' e
  unfolding member
  IsEntry-keep id done ready ready' e i n old = record {
    missing = λ d m. ground (arith, i.missing d m);
    needed = λ d m. needed_at d m (Bool-cases (str_eq id d));
    free = λ nil. ground (arith, i.free nil, old e.id);
  }
    where
      needed_at :
          (d : String)
          → member d e.deps ≡ true
          → (str_eq id d ≡ true) ⊎ (str_eq id d ≡ false)
          → (member d (deps e.id) ≡ true) × ((str_eq id d || member d done) ≡ false)
      needed_at d m (inl same) =
          let m' : member id e.deps ≡ true =
            subst (λ (y : String). member y e.deps ≡ true) (sym (str_eq-eq id d same)) m in
          cc
      needed_at d m (inr other) = ground (arith, i.needed d m)

  release-IsEntry :
      (id : String) (done ready ready' : List String) (es : List Missing)
      → All (IsEntry done (id ∷ ready)) es
      → ((x : String) → member x ready ≡ true → member x ready' ≡ true)
      → ((x : String) → member x (release id es).1 ≡ true → member x ready' ≡ true)
      → All (IsEntry (id ∷ done) ready') (release id es).0
  unfolding release member
  release-IsEntry id done ready ready' [] h old new = tt
  release-IsEntry id done ready ready' (e ∷ es) (i, h) old new =
      elim (Bool-cases (member id e.deps)) [
        | inl m ↦ rw m (
          IsEntry-remove id done ready ready' e i (λ nil. new e.id (release_head id e es m nil)),
          release-IsEntry id done ready ready' es h old (λ x k. new x (release_tail id e es x k)),
        )
        | inr n ↦ rw n (
          IsEntry-keep id done ready ready' e i n old,
          release-IsEntry id done ready ready' es h old (λ x k. new x (release_tail id e es x k)),
        )
      ]

  -- What becomes ready has all of its dependencies listed.
  release_ready :
      (id : String) (done ready : List String) (es : List Missing)
      → All (IsEntry done (id ∷ ready)) es
      → (x : String) → member x (release id es).1 ≡ true
      → (d : String) → member d (deps x) ≡ true
      → member d (id ∷ done) ≡ true
  unfolding release member
  release_ready id done ready [] h x m d dep = cc
  release_ready id done ready (e ∷ es) (i, h) x m d dep =
      elim (Bool-cases (member id e.deps && is_nil (remove id e.deps) && str_eq e.id x)) [
        | inl hit ↦
            let at : member d (deps e.id) ≡ true =
              subst (λ (y : String). member d (deps y) ≡ true)
                (sym (str_eq-eq e.id x (ground (arith, hit)))) dep in
            ground
              (arith, i.missing d at, member-remove d id e.deps, nil_member d (remove id e.deps))
        | inr miss ↦ release_ready id done ready es h x (ground arith) d dep
      ]

pub release-ids :
    (id : String) (es : List Missing) → map (λ e. e.id) (release id es).0 ≡ map (λ e. e.id) es
unfolding release
release-ids id [] = refl
release-ids id (e ∷ es) = elim (Bool-cases (member id e.deps)) [
  | inl m ↦ rw m (ap (λ r. e.id ∷ r) (release-ids id es))
  | inr n ↦ rw n (ap (λ r. e.id ∷ r) (release-ids id es))
]

-- The invariant of the rounds: `done` is the list so far, the latest first.
pub record IsSorting (deps : String → List String) (done ready : List String) (es : List Missing)
    : Type 0 where
  pub ordered : IsOrdered deps done
  pub entries : All (IsEntry deps done ready) es
  pub waiting :
      (x : String)
      → member x ready ≡ true
      → (d : String) → member d (deps x) ≡ true
      → member d done ≡ true

pub IsSorting-round :
    (deps : String → List String) (id : String) (done ready : List String) (es : List Missing)
    → IsSorting deps done (id ∷ ready) es
    → IsSorting deps (id ∷ done) (ready ++ (release id es).1) (release id es).0
unfolding member
IsSorting-round deps id done ready es s = record {
  ordered = (s.waiting id (member-cons_self id ready), s.ordered);
  entries =
      release-IsEntry deps id done ready (ready ++ out) es s.entries
        (λ x m. member-append_left x ready out m)
        (λ x m. rw (member-append x ready out, m) (ground arith));
  waiting = λ x m d dep.
      waiting_at x d dep (Bool-cases (member x out)) (rw (member-append x ready out) at m);
}
  where
    out : List String
    out = (release id es).1

    waiting_at :
        (x d : String)
        → member d (deps x) ≡ true
        → (member x out ≡ true) ⊎ (member x out ≡ false)
        → (member x ready || member x out) ≡ true
        → member d (id ∷ done) ≡ true
    waiting_at x d dep (inl new) m = release_ready deps id done ready es s.entries x new d dep
    waiting_at x d dep (inr old) m =
        member-cons d id done (s.waiting x (member-cons x id ready (ground arith)) d dep)
