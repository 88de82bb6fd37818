-- ===== src/Campaign/Lease/Race.antt =====
-- Two processes that replace a stale lock at the same time.
use run_forge.Common.{ℕ, ◌≡◌, ◌≢◌, refl, sym, ap, Bool, true, false, List, [], ◌∷◌, ◌==◌, arith}
use run_forge.Campaign.Lease.{
  Lock, owned, Stage, idle, holding, contended, condemned, next, is_stale, World, advance, run,
}

-- Both read the lock of a dead owner and find it stale; `p` replaces it, and then `q` does.
abbrev pub race : ℕ → ℕ → List (ℕ × Bool)
race p q =
    (p, false)
    ∷ (p, false)
    ∷ (p, false)
    ∷ (q, false)
    ∷ (q, false)
    ∷ (q, false)
    ∷ (p, false)
    ∷ (p, false)
    ∷ (p, false)
    ∷ (q, false)
    ∷ (q, false)
    ∷ (q, false)
    ∷ []

-- What two processes and the lock are at.
pub record At (alive : ℕ → Bool) (p q : ℕ) (w : World) (s t : Stage) (l : Lock) : Type 0 where
  pub first : w.stage p ≡ s
  pub second : w.stage q ≡ t
  pub lock : w.lock ≡ l
  pub same : w.alive ≡ alive

eq_self : (r : ℕ) → (r == r) ≡ true
eq_self r = ground arith

eq_ne : (r s : ℕ) → r ≢ s → (r == s) ≡ false
eq_ne r s h = ground arith

module _ (alive : ℕ → Bool) (p q : ℕ) (differ : p ≢ q) where
  pub move_first :
      {w : World} {s t s' : Stage} {l l' : Lock}
      → At alive p q w s t l
      → next false alive p s l ≡ (s', l')
      → At alive p q (advance false p w) s' t l'
  unfolding advance
  move_first {w} a e = record {
    first = rw (eq_self p, a.first, a.lock, a.same) (ap (λ (r : Stage × Lock). r.0) e);
    second = rw (eq_ne q p (λ f. differ (sym f))) a.second;
    lock = rw (a.first, a.lock, a.same) (ap (λ (r : Stage × Lock). r.1) e);
    same = a.same;
  }

  move_second :
      {w : World} {s t t' : Stage} {l l' : Lock}
      → At alive p q w s t l
      → next false alive q t l ≡ (t', l')
      → At alive p q (advance false q w) s t' l'
  unfolding advance
  move_second {w} a e = record {
    first = rw (eq_ne p q differ) a.first;
    second = rw (eq_self q, a.second, a.lock, a.same) (ap (λ (r : Stage × Lock). r.0) e);
    lock = rw (a.second, a.lock, a.same) (ap (λ (r : Stage × Lock). r.1) e);
    same = a.same;
  }

  pub condemn :
      (r d : ℕ)
      → alive d ≡ false
      → next false alive r (contended 0) (owned d) ≡ (condemned 0, owned d)
  unfolding next is_stale
  condemn r d dead = rw dead refl

  race_end :
      (d : ℕ) (w : World)
      → alive d ≡ false
      → At alive p q w idle idle (owned d)
      → At alive p q (run (race p q) w) holding holding (owned q)
  unfolding run next
  race_end d w dead a =
      let read_first = move_first (move_first (move_first a refl) refl) (condemn p d dead) in
      let read_second =
        move_second (move_second (move_second read_first refl) refl) (condemn q d dead) in
      let taken_first = move_first (move_first (move_first read_second refl) refl) refl in
      move_second (move_second (move_second taken_first refl) refl) refl

-- Two processes that both find the lock of a dead owner both come to hold the lease: the second removes
-- the lock that the first has just put in its place.
pub run-race :
    (p q d : ℕ) (w : World)
    → p ≢ q
    → w.lock ≡ owned d
    → w.alive d ≡ false
    → w.stage p ≡ idle
    → w.stage q ≡ idle
    → ((run (race p q) w).stage p ≡ holding) × ((run (race p q) w).stage q ≡ holding)
run-race p q d w differ lock dead first second =
    let end =
      race_end w.alive p q differ d w dead
        (record { first = first; second = second; lock = lock; same = refl }) in
    (end.first, end.second)
