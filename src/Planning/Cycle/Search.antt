-- ===== src/Planning/Cycle/Search.antt =====
-- The invariants of the search: what holds between two dependencies of an id, and after its walk.
use run_forge.Common.Text.{str_eq_self}
use run_forge.Common.{
  ℕ, zero, suc, ◌+◌, ◌≤◌, ◌≡◌, refl, sym, ◌∙◌, subst, true, false, ◌||◌, List, [], ◌∷◌, ◌++◌,
  String, inl, inr, ◌⊎◌, arith, str_eq, Bool-cases,
}
use run_forge.Planning.Graph.{member, remove-cons_self, str_eq-eq, member-cons_self}
use run_forge.Planning.Cycle.{WalkState, from_index, enter, leave, each, walk}
use run_forge.Planning.Cycle.Chains.{
  IsChain, IsCycle, IsChain-append, from_index-IsCycle, pop-append, member-append,
}
use run_forge.Planning.Cycle.Orders.{IsOrdered}
use run_forge.Planning.Cycle.Walks.{
  unseen, unseen-cons_lt, Ends, each-Ends, finish-Ends, Ends-mono, Ends-found,
}

module _ (deps : String → List String) (keys : List String)
    (known : (id : String) → member id keys ≡ false → deps id ≡ []) where
  -- Before a walk: what is visited is an order, and what is being visited stands on the stack.
  pub record IsSearch (s : WalkState) : Type 0 where
    pub ordered : IsOrdered deps s.visited
    pub on_stack : (x : String) → member x s.visiting ≡ member x s.stack

  -- After a walk of `id` from `s` that found no cycle.
  pub record IsVisited (id : String) (s t : WalkState) : Type 0 where
    pub visiting : t.visiting ≡ s.visiting
    pub stack : t.stack ≡ s.stack
    pub ordered : IsOrdered deps t.visited
    pub kept : (x : String) → member x s.visited ≡ true → member x t.visited ≡ true
    pub done : member id t.visited ≡ true

  -- Between two dependencies of `id`, `ds` being those that are left.
  pub record IsBetween (id : String) (s : WalkState) (ds : List String) (t : WalkState)
      : Type 0 where
    pub visiting : t.visiting ≡ id ∷ s.visiting
    pub stack : t.stack ≡ s.stack ++ id ∷ []
    pub ordered : IsOrdered deps t.visited
    pub kept : (x : String) → member x s.visited ≡ true → member x t.visited ≡ true
    pub left : (d : String) → member d ds ≡ true → member d (deps id) ≡ true
    pub covered :
        (d : String) → member d (deps id) ≡ true → (member d ds || member d t.visited) ≡ true

  IsBetween-start :
      (id : String) (s : WalkState) → IsSearch s → IsBetween id s (deps id) (enter id s)
  IsBetween-start id s i = record {
    visiting = refl;
    stack = refl;
    ordered = i.ordered;
    kept = λ x h. h;
    left = λ d h. h;
    covered = λ d h. rw h refl;
  }

  IsBetween-IsSearch :
      (id : String) (s : WalkState) (ds : List String) (t : WalkState)
      → IsSearch s
      → IsBetween id s ds t
      → IsSearch t
  unfolding member
  IsBetween-IsSearch id s ds t i b = record {
    ordered = b.ordered;
    on_stack = λ x.
        rw (b.visiting, b.stack, member-append x s.stack (id ∷ [])) (ground (arith, i.on_stack x));
  }

  IsBetween-next :
      (id : String) (s : WalkState) (d : String) (ds : List String) (t u : WalkState)
      → IsBetween id s (d ∷ ds) t
      → IsVisited d t u
      → IsBetween id s ds u
  unfolding member
  IsBetween-next id s d ds t u b v = record {
    visiting = v.visiting ∙ b.visiting;
    stack = v.stack ∙ b.stack;
    ordered = v.ordered;
    kept = λ x h. v.kept x (b.kept x h);
    left = λ x h. b.left x (rw h (ground arith));
    covered = λ x h. covered_next x h (Bool-cases (str_eq d x));
  }
    where
      covered_next :
          (x : String)
          → member x (deps id) ≡ true
          → (str_eq d x ≡ true) ⊎ (str_eq d x ≡ false)
          → (member x ds || member x u.visited) ≡ true
      covered_next x h (inl e) =
          let m : member x u.visited ≡ true =
            subst (λ (y : String). member y u.visited ≡ true) (str_eq-eq d x e) v.done in
          rw m (ground arith)
      covered_next x h (inr e) = ground (arith, b.covered x h, v.kept x)

  IsBetween-leave :
      (id : String) (s t : WalkState)
      → member id s.visiting ≡ false
      → IsBetween id s [] t
      → IsVisited id s (leave id t)
  unfolding member
  IsBetween-leave id s t new b = record {
    visiting = rw b.visiting (remove-cons_self id s.visiting new);
    stack = rw b.stack (pop-append s.stack id);
    ordered = (λ d h. b.covered d h, b.ordered);
    kept = λ x h. rw (b.kept x h) (ground arith);
    done = rw (str_eq_self id) refl;
  }

  -- An id with a dependency is a key.
  key_of_dep : (id d : String) → member d (deps id) ≡ true → member id keys ≡ true
  unfolding member
  key_of_dep id d h = elim (Bool-cases (member id keys)) [
    | inl e ↦ e
    | inr e ↦
        let no : member d [] ≡ true =
          subst (λ (ds : List String). member d ds ≡ true) (known id e) h in
        cc
  ]

  -- One dependency of an id, by what is known of a walk with less fuel.
  walk_dep :
      (fuel : ℕ) (id : String) (s : WalkState)
      → member id s.visiting ≡ false
      → IsSearch s
      → IsChain deps (s.stack ++ id ∷ [])
      → (d : String) (ds : List String) (t : WalkState) → IsBetween id s (d ∷ ds) t
      → ((unseen keys t.visiting + 2 ≤ fuel)
          → IsSearch t
          → IsChain deps (t.stack ++ d ∷ [])
          → Ends (IsVisited d t) (IsCycle deps) (walk deps fuel d t))
      → (unseen keys s.visiting + 2 ≤ suc fuel)
      → Ends (IsBetween id s ds) (IsCycle deps) (walk deps fuel d t)
  walk_dep fuel id s new i c d ds t b rec f =
      let dep = b.left d (member-cons_self d ds) in
      Ends-mono (IsVisited d t) (IsBetween id s ds) (IsCycle deps)
        (λ u. IsBetween-next id s d ds t u b) (walk deps fuel d t)
        (rec
          (rw b.visiting
            (omega (arith, unseen-cons_lt keys s.visiting id (key_of_dep id d dep) new)))
          (IsBetween-IsSearch id s (d ∷ ds) t i b)
          (rw b.stack (IsChain-append deps s.stack id d c dep)))

  -- A walk with fuel for the ids that are not being visited ends, and what it found is right.
  pub walk-Ends :
      (fuel : ℕ) (id : String) (s : WalkState)
      → unseen keys s.visiting + 2 ≤ fuel
      → IsSearch s
      → IsChain deps (s.stack ++ id ∷ [])
      → Ends (IsVisited id s) (IsCycle deps) (walk deps fuel id s)
  unfolding walk
  walk-Ends zero id s f i c = absurd (omega arith)
  walk-Ends (suc fuel) id s f i c = elim (Bool-cases (member id s.visiting)) [
    | inl busy ↦ rw busy (
        Ends-found deps (IsVisited id s) (from_index id s.stack ++ id ∷ []) s
          (from_index-IsCycle deps id s.stack (sym (i.on_stack id) ∙ busy) c))
    | inr new ↦ elim (Bool-cases (member id s.visited)) [
      | inl old ↦
          rw (new, old)
            (record {
              visiting = refl;
              stack = refl;
              ordered = i.ordered;
              kept = λ x h. h;
              done = old;
            })
      | inr fresh ↦
          rw (new, fresh)
            (finish-Ends (IsBetween id s []) (IsVisited id s) (IsCycle deps) id
              (λ t. IsBetween-leave id s t new) (each (walk deps fuel) (deps id) (enter id s))
              (each-Ends (IsBetween id s) (IsCycle deps) (walk deps fuel)
                (λ d ds t b. walk_dep fuel id s new i c d ds t b (walk-Ends fuel d t) f) (deps id)
                (enter id s) (IsBetween-start id s i)))
    ]
  ]
