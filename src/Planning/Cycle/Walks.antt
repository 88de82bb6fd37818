-- ===== src/Planning/Cycle/Walks.antt =====
-- What one walk of the search does: it returns within the fuel, a cycle that it returns is one, and
-- where it returns none the id is visited, with the state around it as it was.
use run_forge.Common.Text.{str_eq_self}
use run_forge.Common.{
  ℕ, suc, ◌≤◌, ◌<◌, ◌≡◌, refl, ap, subst, true, false, none, some, List, [], ◌∷◌, String,
  if◌then◌else◌, inl, inr, ◌⊎◌, arith, str_eq, Bool-cases,
}
use run_forge.Planning.Graph.{member, str_eq-eq}
use run_forge.Planning.Cycle.{WalkState, Outcome, leave, each, finish}
use run_forge.Planning.Cycle.Chains.{IsCycle}

-- The keys that are not being visited.
abbrev pub unseen : List String → List String → ℕ
unseen [] v = 0
unseen (k ∷ ks) v = let rest = unseen ks v in if member k v then rest else suc rest

pub unseen-cons_le : (ks v : List String) (id : String) → unseen ks (id ∷ v) ≤ unseen ks v
unfolding member
unseen-cons_le [] v id = omega arith
unseen-cons_le (k ∷ ks) v id = ground (arith, unseen-cons_le ks v id)

pub unseen-cons_lt :
    (ks v : List String) (id : String)
    → member id ks ≡ true
    → member id v ≡ false
    → unseen ks (id ∷ v) < unseen ks v
unfolding member
unseen-cons_lt [] v id m n = cc
unseen-cons_lt (k ∷ ks) v id m n = elim (Bool-cases (str_eq k id)) [
  | inl e ↦
      let k_new : member k v ≡ false = rw (str_eq-eq k id e) n in
      ground (
        arith,
        unseen-cons_le ks v id,
        str_eq_self id,
        ap (λ (x : String). str_eq id x) (str_eq-eq k id e),
      )
  | inr e ↦ ground (arith, unseen-cons_lt ks v id (rw e at m) n)
]

-- An outcome that is not lack of fuel, with `P` of the state after it where no cycle was found, and `Q`
-- of the cycle otherwise.
abbrev pub Ends : (WalkState → Type 0) → (List String → Type 0) → Outcome → Type 0
Ends P Q none = ⊥
Ends P Q (some ([], s)) = P s
Ends P Q (some (x ∷ xs, s)) = Q (x ∷ xs)

Outcome-cases :
    (o : Outcome)
    → (o ≡ none)
      ⊎ ((s : WalkState) × (o ≡ some ([], s)))
      ⊎ ((x : String) × (xs : List String) × (s : WalkState) × (o ≡ some (x ∷ xs, s)))
Outcome-cases none = inl refl
Outcome-cases (some ([], s)) = inr (inl (s, refl))
Outcome-cases (some (x ∷ xs, s)) = inr (inr (x, xs, s, refl))

-- The rule of the loop over the dependencies: `P` holds of what is left to do and the state.
pub each-Ends :
    (P : List String → WalkState → Type 0) (Q : List String → Type 0)
    (walk_one : String → WalkState → Outcome)
    → ((d : String) (ds : List String) (s : WalkState)
        → P (d ∷ ds) s
        → Ends (P ds) Q (walk_one d s))
    → (ds : List String) (s : WalkState) → P ds s
    → Ends (P []) Q (each walk_one ds s)
unfolding each
each-Ends P Q w step [] s p = p
each-Ends P Q w step (d ∷ ds) s p = elim (Outcome-cases (w d s)) [
  | inl e ↦ absurd (subst (Ends (P ds) Q) e (step d ds s p))
  | inr (inl (s', e)) ↦
      rw (e, each) (each-Ends P Q w step ds s' (subst (Ends (P ds) Q) e (step d ds s p)))
  | inr (inr (x, xs, s', e)) ↦ rw (e, each) (subst (Ends (P ds) Q) e (step d ds s p))
]

pub finish-Ends :
    (P R : WalkState → Type 0) (Q : List String → Type 0) (id : String)
    → ((s : WalkState) → P s → R (leave id s))
    → (o : Outcome) → Ends P Q o
    → Ends R Q (finish id o)
unfolding finish
finish-Ends P R Q id step none h = elim h [ ]
finish-Ends P R Q id step (some ([], s)) h = step s h
finish-Ends P R Q id step (some (x ∷ xs, s)) h = h

pub Ends-mono :
    (P R : WalkState → Type 0) (Q : List String → Type 0)
    → ((s : WalkState) → P s → R s)
    → (o : Outcome) → Ends P Q o
    → Ends R Q o
Ends-mono P R Q step none h = elim h [ ]
Ends-mono P R Q step (some ([], s)) h = step s h
Ends-mono P R Q step (some (x ∷ xs, s)) h = h

pub Ends-found :
    (deps : String → List String) (P : WalkState → Type 0) (c : List String) (s : WalkState)
    → IsCycle deps c
    → Ends P (IsCycle deps) (some (c, s))
Ends-found deps P [] s (x, mid, e, h) = cc
Ends-found deps P (y ∷ ys) s h = h
