-- ===== src/Planning/Graph.antt =====
-- The dependency graph of a plan: sets of node ids as lists, and the `Map` from a node's id to the ids
-- that it depends on.
use run_forge.Common.Text.{str_eq_self}
use run_forge.Common.{
  ◌≡◌, refl, sym, subst, Bool, true, false, ◌||◌, Option, none, some, List, [], ◌∷◌, ◌++◌, map,
  String, if◌then◌else◌, or_else, inl, inr, arith, str_eq, str_eq_iff, Bool-cases,
}
use mathlib.Core.Option.{Option}

pub record GraphNode : Type 0 where
  pub id : String
  pub depends_on : List String

-- `set.has(id)`, and `array.includes(id)`.
unfoldable pub member : String → List String → Bool
member id [] = false
member id (x ∷ xs) = str_eq x id || member id xs

-- `set.delete(id)`
unfoldable pub remove : String → List String → List String
remove id [] = []
remove id (x ∷ xs) = let rest = remove id xs in if str_eq x id then rest else x ∷ rest

-- `map.get(id)`: of two nodes with one id, the later one counts.
unfoldable pub get : List GraphNode → String → Option (List String)
get [] id = none
get (n ∷ ns) id = elim (get ns id) [
  | some deps ↦ some deps
  | none ↦ if str_eq n.id id then some n.depends_on else none
]

-- `graph.get(id) ?? []`
unfoldable pub deps_of : List GraphNode → String → List String
unfolding get
deps_of nodes id = or_else (get nodes id) []

abbrev pub ids : List GraphNode → List String
ids = map λ n. n.id

pub str_eq-eq : (x y : String) → str_eq x y ≡ true → x ≡ y
str_eq-eq x y = (str_eq_iff x y).0

pub remove_self : (id : String) (xs : List String) → member id xs ≡ false → remove id xs ≡ xs
unfolding member remove
remove_self id [] h = refl
remove_self id (x ∷ xs) h = ground (arith, remove_self id xs)

pub remove-cons_self :
    (id : String) (xs : List String) → member id xs ≡ false → remove id (id ∷ xs) ≡ xs
unfolding remove
remove-cons_self id xs h = ground (arith, str_eq_self id, remove_self id xs h)

pub member-append_left :
    (id : String) (xs ys : List String) → member id xs ≡ true → member id (xs ++ ys) ≡ true
unfolding member
member-append_left id [] ys h = cc
member-append_left id (x ∷ xs) ys h = ground (arith, member-append_left id xs ys)

pub get-eq_none :
    (nodes : List GraphNode) (id : String) → member id (ids nodes) ≡ false → get nodes id ≡ none
unfolding get member
get-eq_none [] id h = refl
get-eq_none (n ∷ ns) id h = ground (arith, get-eq_none ns id)

-- An id without a node has no dependencies.
pub deps_of-unknown :
    (nodes : List GraphNode) (id : String) → member id (ids nodes) ≡ false → deps_of nodes id ≡ []
unfolding deps_of
deps_of-unknown nodes id h = rw (get-eq_none nodes id h) refl

pub member-cons_self : (x : String) (xs : List String) → member x (x ∷ xs) ≡ true
unfolding member
member-cons_self x xs = rw (str_eq_self x) refl

pub member-cons : (x d : String) (ds : List String) → member x ds ≡ true → member x (d ∷ ds) ≡ true
unfolding member
member-cons x d ds m = ground (arith, m)

pub str_eq-ne : (x y : String) → str_eq x y ≡ false → str_eq y x ≡ false
str_eq-ne x y h = elim (Bool-cases (str_eq y x)) [
  | inl e ↦
      let h' : str_eq y y ≡ false =
        subst (λ (z : String). str_eq z y ≡ false) (sym (str_eq-eq y x e)) h in
      let same = str_eq_self y in cc
  | inr e ↦ e
]
