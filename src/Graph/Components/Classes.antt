-- ===== src/Graph/Components/Classes.antt =====
-- The components are the classes of connected nodes.
use mathlib.Core.List.Permᴰ
use helios_net.Prelude.{
  ◌≡◌, refl, sym, ap, subst, ◌∙◌, ◌↔◌, ◌⊎◌, inl, inr, some, List, [], ◌∷◌, ◌++◌, append-nil, concat,
  concat-append, In, In-append, In-append_left, In-append_right, In-perm, All, All-append, Unique,
}
use helios_net.Prelude.Sort.{IsSorted, sort_by, sort_by-perm, sort_by-IsSorted}
use helios_net.Prelude.SortedSets.{Unique-perm}
use helios_net.Prelude.Text.{Text, le_text}
use helios_net.Prelude.TextOrder.{le_text-IsOrder}
use helios_net.Prelude.Eq.{text_eq}
use helios_net.Graph.{AssetGraph, neighbours}
use helios_net.Graph.ShortestPath.Rebuild.{stay, go}
use helios_net.Graph.Components.{Flood, Found}
use helios_net.Graph.Components.Reach.{Connected, Connected-trans, Connected-edge, ids, IsReached}

Unique-append :
    {A : Type 0} (xs ys : List A)
    → Unique xs
    → Unique ys
    → ((x : A) → In x xs → ¬ In x ys)
    → Unique (xs ++ ys)
Unique-append [] ys u v n = v
Unique-append (x ∷ xs) ys u v n = (
  λ i. elim (In-append x xs ys i) [ inl j ↦ u.0 j | inr j ↦ n x (inl refl) j ],
  Unique-append xs ys u.1 v (λ y i. n y (inr i)),
)

abbrev pub IsSymmetric : AssetGraph → Type 0
IsSymmetric g = (a b : Text) → In b (neighbours g a) → In a (neighbours g b)

Connected-sym : (g : AssetGraph) → IsSymmetric g → (a b : Text) → Connected g a b → Connected g b a
Connected-sym g s a b (path, stay _) = (path, stay a)
Connected-sym g s a b (_ ∷ path, go {b = c} e w) =
    Connected-trans (Connected-sym g s c b (path, w)) (Connected-edge (s a c e))

-- A component: sorted, not empty, and of each of its nodes just the nodes connected with it
pub record IsClass (g : AssetGraph) (c : List Text) : Type 0 where
  pub sorted : IsSorted le_text c
  pub some_node : (x : Text) × In x c
  pub connected : (x y : Text) → In x c → In y c ↔ Connected g x y

module _ (g : AssetGraph) (symmetric : IsSymmetric g) where
  -- What the loop over the nodes keeps
  pub record IsFound (found : Found) : Type 0 where
    pub closed : (x y : Text) → In x found.0 → In y (neighbours g x) → In y found.0
    pub held : (x : Text) → In x found.0 ↔ In x (concat found.1)
    pub once : Unique (concat found.1)
    pub inside : (x : Text) → In x (concat found.1) → In x (ids g)
    pub classes : All (IsClass g) found.1

  module _ (start : Text) (seen : List Text) (comps : List (List Text)) (h : IsFound (seen, comps))
      (unseen : ¬ In start seen) where
    -- The component that is closed under neighbours holds what is connected with its nodes.
    stays :
        (s : Flood)
        → IsReached g start seen (some s)
        → (x y : Text) → Connected g x y
        → In x s.comp
        → In y s.comp
    stays s r x y (path, stay _) i = i
    stays s (k, c, j, e) x y (_ ∷ path, go {b = z} edge w) i =
        stays s (k, c, j, e) z y (path, w)
          (elim ((k.known z).0 (c x z i edge)) [
            | inl b ↦ absurd (k.fresh x (all_comp x i) (h.closed z x b (symmetric x z edge)))
            | inr f ↦ subst (In z) (ap (λ p. s.comp ++ p) e ∙ append-nil s.comp) f
          ])
      where
        all_comp : (u : Text) → In u s.comp → In u (s.comp ++ s.pending)
        all_comp u l = In-append_left u s.comp s.pending l

    pub add_component-IsFound :
        (s : Flood)
        → IsReached g start seen (some s)
        → IsFound (s.seen, comps ++ sort_by le_text s.comp ∷ [])
    add_component-IsFound s (k, c, j, e) =
        let perm = sort_by-perm le_text s.comp in
        record {
          closed = λ x y i edge. elim ((k.known x).0 i) [
            | inl b ↦ (k.known y).1 (inl (h.closed x y b edge))
            | inr f ↦ c x y (subst (In x) whole f) edge
          ];
          held = λ x. (
            λ i. elim ((k.known x).0 i) [
              | inl b ↦ old x ((h.held x).0 b)
              | inr f ↦ new x (subst (In x) whole f)
            ],
            λ i. elim (split x i) [
              | inl b ↦ (k.known x).1 (inl ((h.held x).1 b))
              | inr f ↦ (k.known x).1 (inr (subst (In x) (sym whole) f))
            ],
          );
          once = subst Unique (sym joined) (
              Unique-append (concat comps) (sort_by le_text s.comp) h.once
                (Unique-perm (Permᴰ.symm perm) (subst Unique whole k.once))
                (λ x i f.
                  k.fresh x (subst (In x) (sym whole) (In-perm x perm f)) ((h.held x).1 i)));
          inside = λ x i. elim (split x i) [
            | inl b ↦ h.inside x b
            | inr f ↦ k.inside x (subst (In x) (sym whole) f)
          ];
          classes =
              All-append (IsClass g) comps (sort_by le_text s.comp ∷ []) h.classes (class_of, tt);
        }
      where
        whole : s.comp ++ s.pending ≡ s.comp
        whole = ap (λ p. s.comp ++ p) e ∙ append-nil s.comp

        joined :
            concat (comps ++ sort_by le_text s.comp ∷ []) ≡ concat comps ++ sort_by le_text s.comp
        joined =
            concat-append comps (sort_by le_text s.comp ∷ [])
            ∙ ap (λ l. concat comps ++ l) (append-nil (sort_by le_text s.comp))

        old :
            (x : Text) → In x (concat comps) → In x (concat (comps ++ sort_by le_text s.comp ∷ []))
        old x i = subst (In x) (sym joined) (In-append_left x (concat comps) _ i)

        new : (x : Text) → In x s.comp → In x (concat (comps ++ sort_by le_text s.comp ∷ []))
        new x i = subst (In x) (sym joined) (
            In-append_right x (concat comps) _
              (In-perm x (Permᴰ.symm (sort_by-perm le_text s.comp)) i))

        split :
            (x : Text)
            → In x (concat (comps ++ sort_by le_text s.comp ∷ []))
            → In x (concat comps) ⊎ In x s.comp
        split x i =
            elim (In-append x (concat comps) (sort_by le_text s.comp) (subst (In x) joined i)) [
              | inl b ↦ inl b
              | inr f ↦ inr (In-perm x (sort_by-perm le_text s.comp) f)
            ]

        sorted_iff : (x : Text) → In x (sort_by le_text s.comp) ↔ In x s.comp
        sorted_iff x =
            let perm = sort_by-perm le_text s.comp in (In-perm x perm, In-perm x (Permᴰ.symm perm))

        from_start_to : (x : Text) → In x s.comp → Connected g start x
        from_start_to x i = k.reached x (subst (In x) (sym whole) i)

        class_of : IsClass g (sort_by le_text s.comp)
        class_of = record {
          sorted = sort_by-IsSorted le_text le_text-IsOrder s.comp;
          some_node = elim ((k.known start).0 j) [
            | inl b ↦ absurd (unseen b)
            | inr f ↦ (start, (sorted_iff start).1 (subst (In start) whole f))
          ];
          connected = λ x y i. (
            λ f.
                Connected-trans
                  (Connected-sym g symmetric start x (from_start_to x ((sorted_iff x).0 i)))
                  (from_start_to y ((sorted_iff y).0 f)),
            λ w. (sorted_iff y).1 (stays s (k, c, j, e) x y w ((sorted_iff x).0 i)),
          );
        }
