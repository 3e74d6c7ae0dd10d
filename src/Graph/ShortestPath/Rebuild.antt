-- ===== src/Graph/ShortestPath/Rebuild.antt =====
-- The path that the search reads out of `prev` is a walk of the graph.
use helios_net.Prelude.{
  ℕ, zero, suc, ◌≡◌, ◌≢◌, refl, sym, ap, subst, ◌∙◌, ◌⊎◌, inl, inr, true, false, some, List, [],
  ◌∷◌, length, map, In, arith, ◌≤◌, ◌+◌, if◌then◌else◌,
}
use helios_net.Prelude.Text.{Text, eqb_text, eqb_text_refl}
use helios_net.Graph.{AssetGraph, neighbours}
use helios_net.Prelude.TextOrder.{eqb_text-cases}
use helios_net.Graph.ShortestPath.{route, Prev, find_prev, path_step, path_loop}

-- The nodes of a walk from one node to another
pub data IsWalk (g : AssetGraph) : Text → List Text → Text → Type 0 where
  stay : (a : Text) → IsWalk g a (a ∷ []) a
  go :
      {a b c : Text} {path : List Text}
      → In b (neighbours g a)
      → IsWalk g b path c
      → IsWalk g a (a ∷ path) c

abbrev pub keys : Prev → List Text
keys = map (λ e. e.0)

-- How many entries of `prev` lie between a node and the source
abbrev pub depth : Prev → Text → ℕ
depth [] x = 0
depth ((n, p) ∷ prev) x =
    let rest = depth prev x in if eqb_text x n then suc (depth prev p) else rest

module _ (g : AssetGraph) (source : Text) where
  -- Each entry of `prev` is an edge from the source or an earlier entry to a new node.
  abbrev pub IsLinked : Prev → Type 0
  IsLinked [] = Unit
  IsLinked ((n, p) ∷ prev) =
      (n ≢ source)
      × (¬ In n (keys prev))
      × (In n (neighbours g p))
      × ((p ≡ source) ⊎ In p (keys prev))
      × IsLinked prev

  no_eqb : (a b : Text) → a ≢ b → eqb_text a b ≡ false
  no_eqb a b n = elim (eqb_text-cases a b) [ inl e ↦ absurd (n e) | inr e ↦ e ]

  pub depth-source : (prev : Prev) → IsLinked prev → depth prev source ≡ 0
  depth-source [] h = refl
  depth-source ((n, p) ∷ prev) h = rw (no_eqb source n (λ e. h.0 (sym e))) (depth-source prev h.4)

  module _ (prev : Prev) where
    at_source :
        (fuel : ℕ) (n : Text) (path : List Text)
        → n ≡ source
        → path_loop source prev fuel n path ≡ route (n ∷ path)
    unfolding path_loop
    at_source zero n path e = rw (e, eqb_text_refl source) refl
    at_source (suc fuel) n path e = rw (e, eqb_text_refl source) refl

    one_back :
        (fuel : ℕ) (n p : Text) (path : List Text)
        → n ≢ source
        → find_prev n prev ≡ some p
        → path_loop source prev (suc fuel) n path ≡ path_loop source prev fuel p (n ∷ path)
    unfolding path_loop path_step
    one_back fuel n p path h e = rw (no_eqb n source h, e) refl

    -- `part` is what is left of `prev`: its entries are still found in the whole.
    pub path_loop-IsWalk :
        (part : Prev)
        → IsLinked part
        → ((x : Text) → In x (keys part) → find_prev x prev ≡ find_prev x part)
        → (fuel : ℕ) → length part ≤ fuel
        → (n target : Text) (path : List Text) → (n ≡ source) ⊎ In n (keys part)
        → IsWalk g n (n ∷ path) target
        → (nodes : List Text) × (path_loop source prev fuel n path ≡ route nodes)
          × IsWalk g source nodes target
          × (length nodes ≡ suc (length path) + depth part n)
    path_loop-IsWalk part linked same fuel le n target path (inl e) w = (
      n ∷ path,
      at_source fuel n path e,
      subst (λ z. IsWalk g z (n ∷ path) target) e w,
      omega (arith, ap (depth part) e, depth-source part linked),
    )
    path_loop-IsWalk [] linked same fuel le n target path (inr i) w = absurd i
    path_loop-IsWalk ((m, p) ∷ part) linked same zero le n target path (inr i) w =
        absurd (omega arith)
    path_loop-IsWalk ((m, p) ∷ part) linked same (suc fuel) le n target path (inr i) w =
        elim (eqb_text-cases n m) [
          | inl n≡m ↦
              let found : find_prev n prev ≡ some p = same n i ∙ here n n≡m in
              let step = one_back fuel n p path (λ e. linked.0 (sym n≡m ∙ e)) found in
              let edge : In n (neighbours g p) =
                subst (λ z. In z (neighbours g p)) (sym n≡m) linked.2 in
              let (nodes, r, w', count) =
                path_loop-IsWalk part linked.4 later fuel (omega arith) p target (n ∷ path) linked.3
                  (go edge w) in
              (nodes, step ∙ r, w', omega (arith, count, deeper n n≡m))
          | inr e ↦ rw e (
              path_loop-IsWalk part linked.4 later (suc fuel) (omega arith) n target path
                (inr (elim i [
                  | inl f ↦
                      absurd (clash (sym (eqb_text_refl m) ∙ ap (λ z. eqb_text z m) (sym f) ∙ e))
                  | inr j ↦ j
                ]))
                w)
        ]
      where
        clash : ¬ (true ≡ false)
        clash h = ground arith

        deeper : (x : Text) → x ≡ m → depth ((m, p) ∷ part) x ≡ suc (depth part p)
        deeper x e = rw (e, eqb_text_refl m) refl

        here : (x : Text) → x ≡ m → find_prev x ((m, p) ∷ part) ≡ some p
        here x e = unfold find_prev in rw (e, eqb_text_refl m) refl

        later : (x : Text) → In x (keys part) → find_prev x prev ≡ find_prev x part
        later x j =
            let other : x ≢ m = λ e. linked.1 (subst (λ z. In z (keys part)) e j) in
            same x (inr j) ∙ unfold find_prev in rw (no_eqb x m other) refl
