-- ===== src/Graph/Adjacency.antt =====
-- What the operations on the dictionary of sets do.

use helios_net.Prelude.{◌≡◌, refl, sym, ◌↔◌, ◌⊎◌, inl, inr, Bool-cases, List, [], ◌∷◌, In}
use helios_net.Prelude.Text.{Text, eqb_text, eqb_text_refl}
use helios_net.Prelude.TextOrder.{eqb_text-cases, eqb_text-false}
use helios_net.Prelude.Eq.{text_eq}
use helios_net.Prelude.Sets.{In-set_add}
use helios_net.Graph.{adj_of, adj_touch, adj_add}

pub adj_of-adj_touch :
    (adj : List (Text × List Text)) (a n : Text) → adj_of (adj_touch adj a) n ≡ adj_of adj n
unfolding adj_of adj_touch
adj_of-adj_touch [] a n = elim (Bool-cases (eqb_text n a)) [ inl e ↦ rw e | inr e ↦ rw e ]
adj_of-adj_touch ((m, ns) ∷ adj) a n = elim (Bool-cases (eqb_text a m)) [
  | inl e ↦ rw e
  | inr e ↦ rw (e, adj_of-adj_touch adj a n)
]

-- The sets after `adj[a].add(b)`
pub In-adj_add :
    (adj : List (Text × List Text)) (a b n x : Text)
    → In x (adj_of (adj_add adj a b) n) ↔ (In x (adj_of adj n) ⊎ (n ≡ a) × (x ≡ b))
unfolding adj_of adj_add
In-adj_add [] a b n x = elim (eqb_text-cases n a) [
  | inl e ↦
      rw (e, eqb_text_refl a)
        (
          λ i. elim i [ inl f ↦ inr (refl, f) | inr k ↦ absurd k ],
          λ i. elim i [ inl k ↦ absurd k | inr f ↦ inl f.1 ],
        )
  | inr e ↦ rw e (λ i. inl i, λ i. elim i [ inl k ↦ k | inr f ↦ absurd (eqb_text-false n a e f.0) ])
]
In-adj_add ((m, ns) ∷ adj) a b n x = elim (eqb_text-cases a m) [
  | inl e ↦ elim (eqb_text-cases n m) [
    | inl f ↦
        let set = In-set_add ns b x in
        rw (e, f, eqb_text_refl m, eqb_text_refl m)
          (
            λ i. elim (set.0 i) [ inl j ↦ inl j | inr g ↦ inr (refl, g) ],
            λ i. elim i [ inl j ↦ set.1 (inl j) | inr g ↦ set.1 (inr g.1) ],
          )
    | inr f ↦
        rw (e, eqb_text_refl m, f)
          (λ i. inl i, λ i. elim i [ inl j ↦ j | inr g ↦ absurd (eqb_text-false n m f g.0) ])
  ]
  | inr e ↦ elim (eqb_text-cases n m) [
    | inl f ↦
        rw (e, f, eqb_text_refl m)
          (λ i. inl i, λ i. elim i [ inl j ↦ j | inr g ↦ absurd (eqb_text-false a m e (sym g.0)) ])
    | inr f ↦ rw (e, f) (In-adj_add adj a b n x)
  ]
]
