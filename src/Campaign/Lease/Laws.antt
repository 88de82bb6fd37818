-- ===== src/Campaign/Lease/Laws.antt =====
-- Who holds the lease.
use run_forge.Common.{
  ℕ, zero, ◌≡◌, ◌≢◌, refl, sym, ◌∙◌, subst, ◌⊎◌, Bool, true, false, List, [], ◌∷◌, ◌==◌, arith,
  Bool-cases, inl, inr, All,
}
use run_forge.Campaign.Lease.{
  Lock, absent, ownerless, owned, Stage, idle, holding, releasing, refused, trying, made, contended,
  condemned, next, World, update, advance, run,
}

abbrev pub is_inside : Stage → Bool
is_inside holding = true
is_inside releasing = true
is_inside s = false

abbrev is_made : Stage → Bool
is_made (made n) = true
is_made s = false

abbrev pub is_condemned : Stage → Bool
is_condemned (condemned n) = true
is_condemned s = false

owned_injective : (p q : ℕ) → owned p ≡ owned q → p ≡ q
owned_injective p q e = cc

-- One call of `r`, all processes being alive and no lock being old.
module _ (alive : ℕ → Bool) (all : (p : ℕ) → alive p ≡ true) (r : ℕ) where
  next-held :
      (s : Stage) (l : Lock)
      → (is_inside s ≡ true → l ≡ owned r)
      → is_condemned s ≡ false
      → is_inside (next false alive r s l).0 ≡ true
      → (next false alive r s l).1 ≡ owned r
  unfolding next
  next-held (trying n) absent i c h = cc
  next-held (made n) ownerless i c h = refl
  next-held (contended n) (owned q) i c h = ground (arith, all q)
  next-held holding (owned q) i c h = ground arith
  next-held s l i c h = cc

  -- The lock of another process stays.
  next-other :
      (p : ℕ) (s : Stage) (l : Lock)
      → (is_inside s ≡ true → l ≡ owned r)
      → is_condemned s ≡ false
      → p ≢ r
      → l ≡ owned p
      → (next false alive r s l).1 ≡ owned p
  unfolding next
  next-other p idle (owned q) i c ne e = e
  next-other p (trying n) (owned q) i c ne e = e
  next-other p (made n) (owned q) i c ne e = e
  next-other p (contended n) (owned q) i c ne e = e
  next-other p holding (owned q) i c ne e = e
  next-other p releasing (owned q) i c ne e = absurd (ne (owned_injective p r (sym e ∙ i refl)))
  next-other p refused (owned q) i c ne e = e
  next-other p s l i c ne e = cc

  -- So does one that another process has made and not yet signed.
  next-unsigned :
      (s : Stage) (l : Lock)
      → (is_inside s ≡ true → l ≡ owned r)
      → is_condemned s ≡ false
      → is_made s ≡ false
      → l ≡ ownerless
      → (next false alive r s l).1 ≡ ownerless
  unfolding next
  next-unsigned idle ownerless i c m e = e
  next-unsigned (trying n) ownerless i c m e = e
  next-unsigned (contended n) ownerless i c m e = e
  next-unsigned holding ownerless i c m e = e
  next-unsigned releasing ownerless i c m e = let k = i refl in cc
  next-unsigned refused ownerless i c m e = e
  next-unsigned s l i c m e = cc

  -- A process makes the lock only where there is none.
  next-made :
      (s : Stage) (l : Lock)
      → is_made (next false alive r s l).0 ≡ true
      → (l ≡ absent) × ((next false alive r s l).1 ≡ ownerless)
  unfolding next
  next-made (trying n) absent h = (refl, refl)
  next-made (made n) absent h = cc
  next-made (contended n) (owned q) h = ground (arith, all q)
  next-made holding (owned q) h = ground arith
  next-made (condemned zero) absent h = cc
  next-made s l h = cc

  next-spared : (s : Stage) (l : Lock) → is_condemned (next false alive r s l).0 ≡ false
  unfolding next
  next-spared (trying n) absent = refl
  next-spared (made n) absent = refl
  next-spared (contended n) (owned q) = ground (arith, all q)
  next-spared (condemned zero) absent = refl
  next-spared holding (owned q) = ground arith
  next-spared s l = refl

-- The holder's name stands in the lock, at most one process has made it and not yet signed it, and
-- none is about to remove it.
pub record IsExclusive (w : World) : Type 0 where
  pub held : (p : ℕ) → is_inside (w.stage p) ≡ true → w.lock ≡ owned p
  pub unsigned : (p : ℕ) → is_made (w.stage p) ≡ true → w.lock ≡ ownerless
  pub one_made : (p q : ℕ) → is_made (w.stage p) ≡ true → is_made (w.stage q) ≡ true → p ≡ q
  pub spared : (p : ℕ) → is_condemned (w.stage p) ≡ false
  pub living : (p : ℕ) → w.alive p ≡ true

eq_or_not : (p r : ℕ) → (p ≡ r) ⊎ ((p == r) ≡ false)
eq_or_not p r = ground arith

ne_of_false : (p r : ℕ) → (p == r) ≡ false → p ≢ r
ne_of_false p r h = ground arith

eq_self : (r : ℕ) → (r == r) ≡ true
eq_self r = ground arith

module _ (r : ℕ) (w : World) (i : IsExclusive w) where
  abbrev after : Stage × Lock
  after = next false w.alive r (w.stage r) w.lock

  stage_self : (P : Stage → Type 0) (p : ℕ) → p ≡ r → P (update w.stage r after.0 p) → P after.0
  stage_self P p e h = subst P (rw e (rw (eq_self r) refl)) h

  stage_other :
      (P : Stage → Type 0) (p : ℕ)
      → (p == r) ≡ false
      → P (update w.stage r after.0 p)
      → P (w.stage p)
  stage_other P p n h = subst P (rw n refl) h

  held_at :
      (p : ℕ)
      → (p ≡ r) ⊎ ((p == r) ≡ false)
      → is_inside (update w.stage r after.0 p) ≡ true
      → after.1 ≡ owned p
  held_at p (inl e) h =
      subst (λ (q : ℕ). after.1 ≡ owned q) (sym e)
        (next-held w.alive i.living r (w.stage r) w.lock (i.held r) (i.spared r)
          (stage_self (λ s. is_inside s ≡ true) p e h))
  held_at p (inr n) h =
      next-other w.alive i.living r p (w.stage r) w.lock (i.held r) (i.spared r) (ne_of_false p r n)
        (i.held p (stage_other (λ s. is_inside s ≡ true) p n h))

  -- Another process that has made the lock is the only one.
  not_made : (p : ℕ) → (p == r) ≡ false → is_made (w.stage p) ≡ true → is_made (w.stage r) ≡ false
  not_made p n h = elim (Bool-cases (is_made (w.stage r))) [
    | inl m ↦ absurd (ne_of_false p r n (i.one_made p r h m))
    | inr m ↦ m
  ]

  unsigned_at :
      (p : ℕ)
      → (p ≡ r) ⊎ ((p == r) ≡ false)
      → is_made (update w.stage r after.0 p) ≡ true
      → after.1 ≡ ownerless
  unsigned_at p (inl e) h =
      (next-made w.alive i.living r (w.stage r) w.lock (stage_self (λ s. is_made s ≡ true) p e h)).1
  unsigned_at p (inr n) h =
      let h' = stage_other (λ s. is_made s ≡ true) p n h in
      next-unsigned w.alive i.living r (w.stage r) w.lock (i.held r) (i.spared r) (not_made p n h')
        (i.unsigned p h')

  -- A process makes the lock only where no other has made it.
  fresh :
      (p q : ℕ)
      → p ≡ r
      → (q == r) ≡ false
      → is_made (update w.stage r after.0 p) ≡ true
      → is_made (update w.stage r after.0 q) ≡ true
      → ⊥
  fresh p q e n h k =
      let none_there =
        (next-made w.alive i.living r (w.stage r) w.lock
          (stage_self (λ s. is_made s ≡ true) p e h)).0 in
      let there = i.unsigned q (stage_other (λ s. is_made s ≡ true) q n k) in cc

  one_made_at :
      (p q : ℕ)
      → (p ≡ r) ⊎ ((p == r) ≡ false)
      → (q ≡ r) ⊎ ((q == r) ≡ false)
      → is_made (update w.stage r after.0 p) ≡ true
      → is_made (update w.stage r after.0 q) ≡ true
      → p ≡ q
  one_made_at p q (inl e) (inl f) h k = e ∙ sym f
  one_made_at p q (inl e) (inr n) h k = absurd (fresh p q e n h k)
  one_made_at p q (inr n) (inl f) h k = absurd (fresh q p f n k h)
  one_made_at p q (inr n) (inr m) h k =
      i.one_made p q (stage_other (λ s. is_made s ≡ true) p n h)
        (stage_other (λ s. is_made s ≡ true) q m k)

  spared_at :
      (p : ℕ) → (p ≡ r) ⊎ ((p == r) ≡ false) → is_condemned (update w.stage r after.0 p) ≡ false
  spared_at p (inl e) = rw e (rw (eq_self r) (next-spared w.alive i.living r (w.stage r) w.lock))
  spared_at p (inr n) = rw n (i.spared p)

  advance-IsExclusive : IsExclusive (advance false r w)
  unfolding advance
  advance-IsExclusive = record {
    held = λ p h. held_at p (eq_or_not p r) h;
    unsigned = λ p h. unsigned_at p (eq_or_not p r) h;
    one_made = λ p q h k. one_made_at p q (eq_or_not p r) (eq_or_not q r) h k;
    spared = λ p. spared_at p (eq_or_not p r);
    living = i.living;
  }

run-IsExclusive :
    (schedule : List (ℕ × Bool)) (w : World)
    → All (λ s. s.1 ≡ false) schedule
    → IsExclusive w
    → IsExclusive (run schedule w)
unfolding run
run-IsExclusive [] w h i = i
run-IsExclusive ((p, old) ∷ rest) w (e, h) i =
    rw e (run-IsExclusive rest (advance false p w) h (advance-IsExclusive p w i))

-- The processes at the start: all alive, none with the lock.
abbrev pub at_start : World
at_start = record { lock = absent; stage = λ p. idle; alive = λ p. true }

pub at_start-IsExclusive : IsExclusive at_start
at_start-IsExclusive = record {
  held = λ r m. cc;
  unsigned = λ r m. cc;
  one_made = λ r s m n. cc;
  spared = λ r. refl;
  living = λ r. refl;
}

-- However the calls of any number of processes alternate, as long as no owner dies and no lock without
-- an owner grows old, at most one process holds the lease or is about to remove its lock.
pub run-exclusive :
    (schedule : List (ℕ × Bool)) (p q : ℕ)
    → All (λ s. s.1 ≡ false) schedule
    → is_inside ((run schedule at_start).stage p) ≡ true
    → is_inside ((run schedule at_start).stage q) ≡ true
    → p ≡ q
run-exclusive schedule p q young h k =
    let i = run-IsExclusive schedule at_start young at_start-IsExclusive in
    owned_injective p q (sym (i.held p h) ∙ i.held q k)
