-- ===== src/Patch/Validate/Lists.antt =====
-- Lists of texts: what `Set` and `sort` keep.
use run_forge.Common.{
  ◌≡◌, refl, sym, subst, true, false, not, ◌||◌, List, [], ◌∷◌, ◌++◌, map, filter, inl, inr, arith,
  Bool-cases, All,
}
use run_forge.Patch.Diff.{Units, is_empty, equals}
use run_forge.Patch.Validate.{includes, distinct, unique_non_empty, insert_sorted, sort, is_nil}

pub equals-eq : (s t : Units) → equals s t ≡ true → s ≡ t
equals-eq [] [] h = refl
equals-eq [] (d ∷ t) h = cc
equals-eq (c ∷ s) [] h = cc
equals-eq (c ∷ s) (d ∷ t) h = ground (arith, equals-eq s t)

pub equals_self : (s : Units) → equals s s ≡ true
equals_self [] = refl
equals_self (c ∷ s) = ground (arith, equals_self s)

-- What stands in a list of which all elements satisfy `P` satisfies it.
pub includes-All {ℓ} :
    (P : Units → Type ℓ) (t : Units) (ss : List Units) → All P ss → includes t ss ≡ true → P t
unfolding includes
includes-All P t [] h m = absurd (let m' : false ≡ true = m in cc)
includes-All P t (s ∷ ss) (p, h) m = elim (Bool-cases (equals s t)) [
  | inl e ↦ subst P (equals-eq s t e) p
  | inr e ↦ includes-All P t ss h (rw e at m)
]

includes-distinct_seen :
    (t : Units) (seen ss : List Units)
    → includes t ss ≡ true
    → includes t seen ≡ false
    → includes t (distinct seen ss) ≡ true
unfolding includes distinct
includes-distinct_seen t seen [] m n = cc
includes-distinct_seen t seen (s ∷ ss) m n = elim (Bool-cases (equals s t)) [
  | inl e ↦
      let fresh : includes s seen ≡ false =
        subst (λ (x : Units). includes x seen ≡ false) (sym (equals-eq s t e)) n in
      rw fresh (rw e refl)
  | inr e ↦ elim (Bool-cases (includes s seen)) [
    | inl old ↦ rw old (includes-distinct_seen t seen ss (rw e at m) n)
    | inr new ↦
        rw new (rw e (includes-distinct_seen t (s ∷ seen) ss (rw e at m) (rw (e, includes) n)))
  ]
]

pub includes-distinct :
    (t : Units) (ss : List Units) → includes t ss ≡ true → includes t (distinct [] ss) ≡ true
unfolding includes
includes-distinct t ss m = includes-distinct_seen t [] ss m refl

includes-insert_sorted :
    (t s : Units) (ss : List Units)
    → includes t (insert_sorted s ss) ≡ (equals s t || includes t ss)
unfolding includes insert_sorted
includes-insert_sorted t s [] = refl
includes-insert_sorted t s (u ∷ us) = ground (arith, includes-insert_sorted t s us)

pub includes-sort : (t : Units) (ss : List Units) → includes t (sort ss) ≡ includes t ss
unfolding includes sort
includes-sort t [] = refl
includes-sort t (s ∷ ss) = rw (includes-insert_sorted t s (sort ss), includes-sort t ss) refl

pub includes-map :
    (f : Units → Units) (t : Units) (ss : List Units)
    → includes t ss ≡ true
    → includes (f t) (map f ss) ≡ true
unfolding includes
includes-map f t [] m = cc
includes-map f t (s ∷ ss) m = elim (Bool-cases (equals s t)) [
  | inl e ↦ rw (equals-eq s t e) (rw (equals_self (f t)) refl)
  | inr e ↦ rw (includes-map f t ss (rw e at m)) (ground arith)
]

includes-filter :
    (t : Units) (ss : List Units)
    → includes t ss ≡ true
    → is_empty t ≡ false
    → includes t (filter (λ s. not (is_empty s)) ss) ≡ true
unfolding includes
includes-filter t [] m n = cc
includes-filter t (s ∷ ss) m n = elim (Bool-cases (equals s t)) [
  | inl e ↦
      let full : is_empty s ≡ false =
        subst (λ (x : Units). is_empty x ≡ false) (sym (equals-eq s t e)) n in
      rw full (rw e refl)
  | inr e ↦ elim (Bool-cases (is_empty s)) [
    | inl gone ↦ rw gone (includes-filter t ss (rw e at m) n)
    | inr kept ↦ rw kept (rw (includes-filter t ss (rw e at m) n) (ground arith))
  ]
]

pub includes-unique_non_empty :
    (t : Units) (ss : List Units)
    → includes t ss ≡ true
    → is_empty t ≡ false
    → includes t (unique_non_empty ss) ≡ true
unfolding unique_non_empty
includes-unique_non_empty t ss m n =
    includes-distinct t (filter (λ s. not (is_empty s)) ss) (includes-filter t ss m n)

pub is_nil-append {ℓ} :
    {A : Type ℓ} (xs ys : List A) → is_nil (xs ++ ys) ≡ true → (xs ≡ []) × (is_nil ys ≡ true)
is_nil-append [] ys h = (refl, h)
is_nil-append (x ∷ xs) ys h = absurd (let h' : false ≡ true = h in cc)

pub includes-append_left :
    (t : Units) (ss us : List Units) → includes t ss ≡ true → includes t (ss ++ us) ≡ true
unfolding includes
includes-append_left t [] us m = cc
includes-append_left t (s ∷ ss) us m = ground (arith, includes-append_left t ss us)

pub includes-append_right :
    (t : Units) (ss us : List Units) → includes t us ≡ true → includes t (ss ++ us) ≡ true
unfolding includes
includes-append_right t [] us m = m
includes-append_right t (s ∷ ss) us m = ground (arith, includes-append_right t ss us m)

pub includes-cons_self : (t : Units) (ss : List Units) → includes t (t ∷ ss) ≡ true
unfolding includes
includes-cons_self t ss = rw (equals_self t) refl

pub includes-cons :
    (t s : Units) (ss : List Units) → includes t ss ≡ true → includes t (s ∷ ss) ≡ true
unfolding includes
includes-cons t s ss m = ground (arith, m)
