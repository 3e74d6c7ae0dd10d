-- ===== src/Graph/Components/Reach.antt =====
-- The queue of `connected_components` finds just the nodes that can be reached from its start.
use helios_net.Prelude.{
  ℕ, zero, suc, ◌+◌, ◌≤◌, ◌≡◌, refl, sym, ap, subst, ◌∙◌, ◌↔◌, ◌⊎◌, inl, inr, Bool, true, false,
  if◌then◌else◌, Option, none, some, List, [], ◌∷◌, ◌++◌, append_assoc, map, length, length-append,
  In, In-append, In-append_left, In-append_right, Unique, Unique-snoc, arith,
}
use helios_net.Prelude.SortedSets.{length-Unique}
use helios_net.Prelude.Text.{Text}
use helios_net.Prelude.Eq.{text_eq}
use helios_net.Prelude.Sets.{mem, mem_iff, mem-false}
use helios_net.Graph.{AssetGraph, neighbours}
use helios_net.Graph.WellFormed.{In-neighbours, in_nodes-In, length-map_id}
use helios_net.Graph.ShortestPath.Rebuild.{IsWalk, stay, go}
use helios_net.Graph.Components.{Flood, see, flood_node, flood_queue, flood}

-- Some walk leads from one node to the other.
abbrev pub Connected : AssetGraph → Text → Text → Type 0
Connected g a b = (path : List Text) × IsWalk g a path b

abbrev pub ids : AssetGraph → List Text
ids g = map (λ m. m.id) g.nodes

pub Connected-trans :
    {g : AssetGraph} {a b c : Text} → Connected g a b → Connected g b c → Connected g a c
Connected-trans (path, stay _) w = w
Connected-trans (a ∷ path, go e v) w =
    let (rest, u) = Connected-trans (path, v) w in (a ∷ rest, go e u)

pub Connected-edge : {g : AssetGraph} {a b : Text} → In b (neighbours g a) → Connected g a b
Connected-edge {a} {b} e = (a ∷ b ∷ [], go e (stay b))

-- What the loop keeps, over the set `base` that it started from
module _ (g : AssetGraph) (start : Text) (base : List Text) where
  pub record IsFlood (s : Flood) : Type 0 where
    pub known : (x : Text) → In x s.seen ↔ (In x base ⊎ In x (s.comp ++ s.pending))
    pub fresh : (x : Text) → In x (s.comp ++ s.pending) → ¬ In x base
    pub once : Unique (s.comp ++ s.pending)
    pub reached : (x : Text) → In x (s.comp ++ s.pending) → Connected g start x
    pub inside : (x : Text) → In x (s.comp ++ s.pending) → In x (ids g)

  -- Every neighbour of a node in `comp` was seen.
  abbrev pub IsClosed : Flood → Type 0
  IsClosed s = (x y : Text) → In x s.comp → In y (neighbours g x) → In y s.seen

  see-one :
      (nb : Text) (s : Flood)
      → mem nb s.seen ≡ false
      → Connected g start nb
      → In nb (ids g)
      → IsFlood s
      → IsFlood (record s { seen = nb ∷ s.seen; pending = s.pending ++ nb ∷ [] })
  see-one nb s e w i h = record {
    known = λ x. (
      λ j. elim j [
        | inl k ↦ inr (back x (inr k))
        | inr k ↦ elim ((h.known x).0 k) [ inl b ↦ inl b | inr f ↦ inr (back x (inl f)) ]
      ],
      λ j. elim j [
        | inl b ↦ inr ((h.known x).1 (inl b))
        | inr f ↦ elim (split x f) [ inl o ↦ inr ((h.known x).1 (inr o)) | inr k ↦ inl k ]
      ],
    );
    fresh = λ x f. elim (split x f) [
      | inl o ↦ h.fresh x o
      | inr k ↦ λ b. missing (inl (subst (λ z. In z base) k b))
    ];
    once = subst Unique longer (Unique-snoc (s.comp ++ s.pending) nb h.once (λ f. missing (inr f)));
    reached = λ x f. elim (split x f) [
      | inl o ↦ h.reached x o
      | inr k ↦ subst (Connected g start) (sym k) w
    ];
    inside = λ x f. elim (split x f) [
      | inl o ↦ h.inside x o
      | inr k ↦ subst (λ z. In z (ids g)) (sym k) i
    ];
  }
    where
      longer : (s.comp ++ s.pending) ++ nb ∷ [] ≡ s.comp ++ (s.pending ++ nb ∷ [])
      longer = append_assoc s.comp s.pending (nb ∷ [])

      missing : ¬ (In nb base ⊎ In nb (s.comp ++ s.pending))
      missing f = mem-false nb s.seen e ((h.known nb).1 f)

      back :
          (x : Text)
          → In x (s.comp ++ s.pending) ⊎ (x ≡ nb)
          → In x (s.comp ++ (s.pending ++ nb ∷ []))
      back x (inl f) = subst (In x) longer (In-append_left x (s.comp ++ s.pending) (nb ∷ []) f)
      back x (inr k) =
          subst (In x) longer (In-append_right x (s.comp ++ s.pending) (nb ∷ []) (inl k))

      split :
          (x : Text)
          → In x (s.comp ++ (s.pending ++ nb ∷ []))
          → In x (s.comp ++ s.pending) ⊎ (x ≡ nb)
      split x f = elim (In-append x (s.comp ++ s.pending) (nb ∷ []) (subst (In x) (sym longer) f)) [
        | inl o ↦ inl o
        | inr (inl k) ↦ inr k
        | inr (inr k) ↦ absurd k
      ]

  -- What the loop over the neighbours leaves
  abbrev Seen : List Text → Flood → Flood → Type 0
  Seen nbs s t =
      IsFlood t
      × (t.comp ≡ s.comp)
      × ((x : Text) → In x s.seen → In x t.seen)
      × ((x : Text) → In x nbs → In x t.seen)

  see-Seen :
      (nbs : List Text) (s : Flood)
      → ((x : Text) → In x nbs → Connected g start x × In x (ids g))
      → IsFlood s
      → Seen nbs s (see nbs s)
  unfolding see
  see-Seen [] s f h = (h, refl, λ x i. i, λ x i. absurd i)
  see-Seen (nb ∷ nbs) s f h = step (mem nb s.seen) refl (see-Seen nbs)
    where
      step :
          (old : Bool)
          → mem nb s.seen ≡ old
          → ((t : Flood)
              → ((x : Text) → In x nbs → Connected g start x × In x (ids g))
              → IsFlood t
              → Seen nbs t (see nbs t))
          → Seen (nb ∷ nbs) s (
              see nbs (
                if old then s else record s { seen = nb ∷ s.seen; pending = s.pending ++ nb ∷ [] }))
      step true e rec =
          let (k, c, m, n) = rec s (λ x i. f x (inr i)) h in
          (
            k,
            c,
            m,
            λ x i. elim i [
              | inl p ↦ m x (subst (λ z. In z s.seen) (sym p) ((mem_iff nb s.seen).0 e))
              | inr j ↦ n x j
            ],
          )
      step false e rec =
          let (w, i) = f nb (inl refl) in
          let (k, c, m, n) =
            rec (record s { seen = nb ∷ s.seen; pending = s.pending ++ nb ∷ [] })
              (λ x j. f x (inr j)) (see-one nb s e w i h) in
          (k, c, λ x j. m x (inr j), λ x j. elim j [ inl p ↦ m x (inl p) | inr q ↦ n x q ])

  -- A round
  abbrev IsGood : Flood → Type 0
  IsGood s = IsFlood s × IsClosed s × In start s.seen

  flood_node-IsGood :
      (cur : Text) (rest : List Text) (s : Flood)
      → s.pending ≡ cur ∷ rest
      → IsGood s
      → IsGood (flood_node g cur rest s)
        × (length (flood_node g cur rest s).comp ≡ suc (length s.comp))
  unfolding flood_node
  flood_node-IsGood cur rest s e (h, closed, i) =
      let popped : Flood = record s { comp = s.comp ++ cur ∷ []; pending = rest } in
      let same : s.comp ++ s.pending ≡ popped.comp ++ popped.pending =
        ap (λ p. s.comp ++ p) e ∙ sym (append_assoc s.comp (cur ∷ []) rest) in
      let here : In cur (s.comp ++ s.pending) =
        subst (In cur) (ap (λ p. s.comp ++ p) (sym e))
          (In-append_right cur s.comp (cur ∷ rest) (inl refl)) in
      let ok : IsFlood popped = record {
        known = λ x. subst (λ l. In x s.seen ↔ (In x base ⊎ In x l)) same (h.known x);
        fresh = λ x f. h.fresh x (subst (In x) (sym same) f);
        once = subst Unique same h.once;
        reached = λ x f. h.reached x (subst (In x) (sym same) f);
        inside = λ x f. h.inside x (subst (In x) (sym same) f);
      } in
      let (k, c, m, n) =
        see-Seen (neighbours g cur) popped
          (λ x j. (
            Connected-trans (h.reached cur here) (Connected-edge j),
            in_nodes-In g.nodes x ((In-neighbours g cur x).0 j).2,
          ))
          ok in
      (
        (
          k,
          λ x y j edge. elim (In-append x s.comp (cur ∷ []) (subst (In x) c j)) [
            | inl o ↦ m y (closed x y o edge)
            | inr (inl p) ↦ n y (subst (λ z. In y (neighbours g z)) p edge)
            | inr (inr p) ↦ absurd p
          ],
          m start i,
        ),
        omega (arith, ap length c, length-append s.comp (cur ∷ [])),
      )

  -- The nodes that the loop finds: all that were seen anew, each once, and closed under neighbours
  abbrev pub IsReached : Option Flood → Type 0
  IsReached none = ⊥
  IsReached (some s) = IsFlood s × IsClosed s × In start s.seen × (s.pending ≡ [])

  length-comp : (s : Flood) → IsFlood s → length (s.comp ++ s.pending) ≤ length g.nodes
  length-comp s h =
      omega
        (arith, length-Unique (s.comp ++ s.pending) (ids g) h.once h.inside, length-map_id g.nodes)

  pub flood-IsReached :
      (fuel : ℕ) (s : Flood)
      → IsGood s
      → length g.nodes ≤ fuel + length s.comp
      → IsReached (flood g fuel s)
  unfolding flood
  flood-IsReached zero s h n = go s.pending refl
    where
      go : (q : List Text) → s.pending ≡ q → IsReached (flood_queue g (λ t. none) q s)
      go [] e = unfold flood_queue in (h.0, h.1, h.2, e)
      go (cur ∷ rest) e =
          absurd (clash (length-comp s h.0) (length-append s.comp s.pending) (ap length e))
        where
          clash :
              length (s.comp ++ s.pending) ≤ length g.nodes
              → length (s.comp ++ s.pending) ≡ length s.comp + length s.pending
              → ¬ (length s.pending ≡ suc (length rest))
          clash a b c = omega (arith, a, b, c, n)
  flood-IsReached (suc fuel) s h n = go (flood-IsReached fuel) s.pending refl
    where
      go :
          ((t : Flood)
            → IsGood t
            → length g.nodes ≤ fuel + length t.comp
            → IsReached (flood g fuel t))
          → (q : List Text) → s.pending ≡ q
          → IsReached (flood_queue g (flood g fuel) q s)
      go rec [] e = unfold flood_queue in (h.0, h.1, h.2, e)
      go rec (cur ∷ rest) e =
          let (good, longer) = flood_node-IsGood cur rest s e h in
          unfold flood_queue in rec (flood_node g cur rest s) good (omega (arith, n, longer))
