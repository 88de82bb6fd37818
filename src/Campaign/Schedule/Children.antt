-- ===== src/Campaign/Schedule/Children.antt =====
-- The children of a record: looking one up and writing one back.
use run_forge.Common.{
  ◌≡◌, sym, ◌∙◌, ap, subst, true, some, List, [], ◌∷◌, String, inl, inr, arith, str_eq, str_eq_iff,
  All, Bool-cases,
}
use run_forge.Campaign.{Child, Amount}
use run_forge.Campaign.Accounting.{child_of, put_child, reserved_by}
use run_forge.Campaign.Accounting.Laws.{put_child-reserved}

pub eq_of : (s t : String) → str_eq s t ≡ true → s ≡ t
eq_of s t h = let (to, from) = str_eq_iff s t in to h

pub amount_eq : (a b : Amount) → a.tokens ≡ b.tokens → a.cost_usd ≡ b.cost_usd → a ≡ b
amount_eq a b t c = cc

pub child_of-All :
    (P : Child → Type 0) (id : String) (c : Child) (cs : List Child)
    → child_of id cs ≡ some c
    → All P cs
    → P c
unfolding child_of
child_of-All P id c [] h all = absurd (cc)
child_of-All P id c (x ∷ xs) h (p, all) = elim (Bool-cases (str_eq x.node_id id)) [
  | inl e ↦ subst P (cc (rw e at h)) p
  | inr e ↦ child_of-All P id c xs (rw e at h) all
]

pub put_child-All :
    (P : Child → Type 0) (c : Child) (cs : List Child) → P c → All P cs → All P (put_child c cs)
unfolding put_child
put_child-All P c [] p all = tt
put_child-All P c (x ∷ xs) p (q, all) = elim (Bool-cases (str_eq x.node_id c.node_id)) [
  | inl e ↦ rw e (p, all)
  | inr e ↦ rw e (q, put_child-All P c xs p all)
]

pub child_of-node_id :
    (id : String) (c : Child) (cs : List Child) → child_of id cs ≡ some c → c.node_id ≡ id
unfolding child_of
child_of-node_id id c [] h = absurd (cc)
child_of-node_id id c (x ∷ xs) h = elim (Bool-cases (str_eq x.node_id id)) [
  | inl e ↦
      let same : c ≡ x = cc (rw e at h) in ap (λ (c : Child). c.node_id) same ∙ eq_of x.node_id id e
  | inr e ↦ child_of-node_id id c xs (rw e at h)
]

pub own_id :
    (id : String) (c : Child) (cs : List Child)
    → child_of id cs ≡ some c
    → child_of c.node_id cs ≡ some c
own_id id c cs h = subst (λ i. child_of i cs ≡ some c) (sym (child_of-node_id id c cs h)) h

-- A child that is written back with what it holds leaves the sum as it is.
pub put_child-same :
    (c old : Child) (cs : List Child)
    → child_of c.node_id cs ≡ some old
    → c.reserved_tokens ≡ old.reserved_tokens
    → c.reserved_cost_usd ≡ old.reserved_cost_usd
    → reserved_by (put_child c cs) ≡ reserved_by cs
put_child-same c old cs h t k =
    let (p, q) = put_child-reserved c old cs h in
    amount_eq (reserved_by (put_child c cs)) (reserved_by cs) (omega (arith, p, t))
      (omega (arith, q, k))
