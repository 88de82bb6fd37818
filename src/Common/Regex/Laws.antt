-- ===== src/Common/Regex/Laws.antt =====
-- What a regular expression matches, as a relation, and that `test` finds exactly such matches.
use Prim.Native.Nat.{ℕ}
use mathlib.Core.Path.{◌≡◌, refl}
use mathlib.Core.Logic.{◌↔◌, inl, inr}
use mathlib.Core.Bool.{Bool, true, xor, ◌&&◌, and-eq-true_iff}
use mathlib.Core.Option.{Option, none, some}
use mathlib.Core.List.{List, [], ◌∷◌, ◌++◌}
use native.Mathlib.Omega.{arith}
use run_forge.Common.Tests.{Bool-cases}
use run_forge.Common.Lists.{every}
use run_forge.Common.Regex.{
  Regex, empty, start, end, boundary, chr, many, ahead, seq, alt, last_is_word, next_is_word,
  match_many, match_at, test_from, test, text_of,
}

-- `Matches r last s last' s'`: read after `last`, the expression takes a beginning of `s` and leaves
-- `s'` to be read after `last'`.
pub data Matches : Regex → Option ℕ → List ℕ → Option ℕ → List ℕ → Type 0 where
  nothing : {l : Option ℕ} {s : List ℕ} → Matches empty l s l s
  at_start : {s : List ℕ} → Matches start none s none s
  at_end : {l : Option ℕ} → Matches end l [] l []
  at_boundary :
      {l : Option ℕ} {s : List ℕ}
      → xor (last_is_word l) (next_is_word s) ≡ true
      → Matches boundary l s l s
  looked : {p : List ℕ → Bool} {l : Option ℕ} {s : List ℕ} → p s ≡ true → Matches (ahead p) l s l s
  one :
      {c : ℕ → Bool} {l : Option ℕ} {x : ℕ} {s : List ℕ}
      → c x ≡ true
      → Matches (chr c) l (x ∷ s) (some x) s
  stop : {c : ℕ → Bool} {l : Option ℕ} {s : List ℕ} → Matches (many c) l s l s
  more :
      {c : ℕ → Bool} {l l' : Option ℕ} {x : ℕ} {s s' : List ℕ}
      → c x ≡ true
      → Matches (many c) (some x) s l' s'
      → Matches (many c) l (x ∷ s) l' s'
  both :
      {r t : Regex} {l l' l'' : Option ℕ} {s s' s'' : List ℕ}
      → Matches r l s l' s'
      → Matches t l' s' l'' s''
      → Matches (seq r t) l s l'' s''
  left :
      {r t : Regex} {l l' : Option ℕ} {s s' : List ℕ}
      → Matches r l s l' s'
      → Matches (alt r t) l s l' s'
  right :
      {r t : Regex} {l l' : Option ℕ} {s s' : List ℕ}
      → Matches t l s l' s'
      → Matches (alt r t) l s l' s'

match_many_complete :
    {c : ℕ → Bool} {l l' : Option ℕ} {s s' : List ℕ} (k : Option ℕ → List ℕ → Bool)
    → Matches (many c) l s l' s'
    → k l' s' ≡ true
    → match_many c l s k ≡ true
unfolding match_many
match_many_complete {s = []} k stop h = h
match_many_complete {s = x ∷ s} k stop h = ground arith
match_many_complete k (more {x} p m) h = ground (arith, match_many_complete k m h)

pub match_at_complete :
    {r : Regex} {l l' : Option ℕ} {s s' : List ℕ} (k : Option ℕ → List ℕ → Bool)
    → Matches r l s l' s'
    → k l' s' ≡ true
    → match_at r l s k ≡ true
unfolding match_at
match_at_complete k nothing h = h
match_at_complete k at_start h = h
match_at_complete k at_end h = h
match_at_complete k (at_boundary p) h = ground arith
match_at_complete k (looked p) h = ground arith
match_at_complete k (one p) h = ground arith
match_at_complete {l} {s = []} k stop h = h
match_at_complete {l} {s = x ∷ s} k stop h = ground arith
match_at_complete k (more {x} p m) h = ground (arith, match_many_complete k m h)
match_at_complete k (both {t} m n) h =
    match_at_complete (λ l s. match_at t l s k) m (match_at_complete k n h)
match_at_complete k (left m) h = ground (arith, match_at_complete k m h)
match_at_complete k (right m) h = ground (arith, match_at_complete k m h)

abbrev Ends : Regex → Option ℕ → List ℕ → (Option ℕ → List ℕ → Bool) → Type 0
Ends r l s k = (l' : Option ℕ) × (s' : List ℕ) × Matches r l s l' s' × (k l' s' ≡ true)

match_many_sound :
    (c : ℕ → Bool) (l : Option ℕ) (s : List ℕ) (k : Option ℕ → List ℕ → Bool)
    → match_many c l s k ≡ true
    → Ends (many c) l s k
unfolding match_many
match_many_sound c l [] k h = (l, [], stop, h)
match_many_sound c l (x ∷ s) k h = elim (Bool-cases (k l (x ∷ s))) [
  | inl e ↦ (l, x ∷ s, stop, e)
  | inr e ↦
      let p : (c x && match_many c (some x) s k) ≡ true = rw e at h in
      let (taken, rest) = (and-eq-true_iff _ _).0 p in
      let (l', s', m, q) = match_many_sound c (some x) s k rest in (l', s', more taken m, q)
]

pub match_at_sound :
    (r : Regex) (l : Option ℕ) (s : List ℕ) (k : Option ℕ → List ℕ → Bool)
    → match_at r l s k ≡ true
    → Ends r l s k
unfolding match_at
match_at_sound empty l s k h = (l, s, nothing, h)
match_at_sound start none s k h = (none, s, at_start, h)
match_at_sound start (some x) s k h = cc
match_at_sound end l [] k h = (l, [], at_end, h)
match_at_sound end l (x ∷ s) k h = cc
match_at_sound boundary l s k h = let (p, q) = (and-eq-true_iff _ _).0 h in (l, s, at_boundary p, q)
match_at_sound (ahead p) l s k h = let (t, q) = (and-eq-true_iff _ _).0 h in (l, s, looked t, q)
match_at_sound (chr c) l [] k h = cc
match_at_sound (chr c) l (x ∷ s) k h =
    let (p, q) = (and-eq-true_iff _ _).0 h in (some x, s, one p, q)
match_at_sound (many c) l s k h = match_many_sound c l s k h
match_at_sound (seq r t) l s k h =
    let (l', s', m, h') = match_at_sound r l s (λ l' s'. match_at t l' s' k) h in
    let (l'', s'', n, q) = match_at_sound t l' s' k h' in (l'', s'', both m n, q)
match_at_sound (alt r t) l s k h = elim (Bool-cases (match_at r l s k)) [
  | inl e ↦ let (l', s', m, q) = match_at_sound r l s k e in (l', s', left m, q)
  | inr e ↦
      let p : match_at t l s k ≡ true = rw e at h in
      let (l', s', m, q) = match_at_sound t l s k p in (l', s', right m, q)
]

-- The last character of what has been read.
abbrev pub last_of : Option ℕ → List ℕ → Option ℕ
last_of l [] = l
last_of l (x ∷ a) = last_of (some x) a

-- A match that begins after any text `a` is found.
test_from-append :
    (r : Regex) (l : Option ℕ) (a s : List ℕ) {l' : Option ℕ} {s' : List ℕ}
    → Matches r (last_of l a) s l' s'
    → test_from r l (a ++ s) ≡ true
unfolding test_from
test_from-append r l [] [] m = match_at_complete (λ _ _. true) m refl
test_from-append r l [] (x ∷ s) m = rw (match_at_complete (λ _ _. true) m refl)
test_from-append r l (x ∷ a) s m = ground (arith, test_from-append r (some x) a s m)

pub test-append :
    (r : Regex) (a s : List ℕ) {l' : Option ℕ} {s' : List ℕ}
    → Matches r (last_of none a) s l' s'
    → test r (a ++ s) ≡ true
unfolding test
test-append r a s m = test_from-append r none a s m

-- Whatever `test` finds is a match after some beginning of the text.
abbrev pub Occurs : Regex → Option ℕ → List ℕ → Type 0
Occurs r l text =
    (a : List ℕ) × (s : List ℕ) × (l' : Option ℕ) × (s' : List ℕ) × (text ≡ a ++ s)
    × Matches r (last_of l a) s l' s'

test_from_sound :
    (r : Regex) (l : Option ℕ) (text : List ℕ) → test_from r l text ≡ true → Occurs r l text
unfolding test_from
test_from_sound r l [] h =
    let (l', s', m, _) = match_at_sound r l [] (λ _ _. true) h in ([], [], l', s', refl, m)
test_from_sound r l (x ∷ text) h = elim (Bool-cases (match_at r l (x ∷ text) (λ _ _. true))) [
  | inl e ↦
      let (l', s', m, _) = match_at_sound r l (x ∷ text) (λ _ _. true) e in
      ([], x ∷ text, l', s', refl, m)
  | inr e ↦
      let (a, s, l', s', q, m) = test_from_sound r (some x) text (rw e at h) in
      (x ∷ a, s, l', s', rw q, m)
]

-- `test` answers true exactly when the expression matches somewhere in the text.
pub test_iff : (r : Regex) (text : List ℕ) → (test r text ≡ true) ↔ Occurs r none text
unfolding test
test_iff r text =
    (test_from_sound r none text, λ (a, s, l', s', e, m). rw e (test_from-append r none a s m))

pub text_of-Matches :
    (w : List ℕ) (l : Option ℕ) (s : List ℕ) → Matches (text_of w) l (w ++ s) (last_of l w) s
text_of-Matches [] l s = nothing
text_of-Matches (c ∷ w) l s = both (one (ground arith)) (text_of-Matches w (some c) s)

pub many-Matches :
    (c : ℕ → Bool) (w : List ℕ) (l : Option ℕ) (s : List ℕ)
    → every c w ≡ true
    → Matches (many c) l (w ++ s) (last_of l w) s
many-Matches c [] l s h = stop
many-Matches c (x ∷ w) l s h =
    let (p, q) = (and-eq-true_iff _ _).0 h in more p (many-Matches c w (some x) s q)
