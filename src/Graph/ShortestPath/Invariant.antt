-- ===== src/Graph/ShortestPath/Invariant.antt =====
-- What one round of the search does to `seen`, `prev` and `queue`.
use helios_net.Prelude.{
  ◌+◌, ◌≡◌, refl, sym, ap, subst, ◌∙◌, ◌⊎◌, inl, inr, true, false, List, [], ◌∷◌, ◌++◌, any, length,
  In, In-append, In-append_left, In-append_right, In→any, any→In, arith, Bool-cases, length-append,
}
use helios_net.Prelude.Text.{Text, eqb_text, eqb_text_refl, eqb_text→eq}
use helios_net.Graph.{AssetGraph, neighbours}
use helios_net.Graph.ShortestPath.{Search, Scan, going, arrived, visit, then_scan, scan}
use helios_net.Graph.ShortestPath.Rebuild.{keys, IsLinked}

-- What a scan leaves of a search: it forgets nothing, queues what it newly sees, and a node queued is
-- a node seen.
pub record Grows (s t : Search) : Type 0 where
  pub seen : (x : Text) → In x s.seen → In x t.seen
  pub pending : (x : Text) → In x s.pending → In x t.pending
  pub new : (x : Text) → In x t.seen → In x s.seen ⊎ In x t.pending
  pub balance : length t.seen + length s.pending ≡ length s.seen + length t.pending

Grows-refl : (s : Search) → Grows s s
Grows-refl s = record { seen = λ x i. i; pending = λ x i. i; new = λ x i. inl i; balance = refl }

Grows-trans : (s t u : Search) → Grows s t → Grows t u → Grows s u
Grows-trans s t u h k = record {
  seen = λ x i. k.seen x (h.seen x i);
  pending = λ x i. k.pending x (h.pending x i);
  new = λ x i. elim (k.new x i) [
    | inl j ↦ elim (h.new x j) [ inl a ↦ inl a | inr b ↦ inr (k.pending x b) ]
    | inr j ↦ inr j
  ];
  balance = omega (arith, h.balance, k.balance);
}

pub not_seen : (seen : List Text) (nb : Text) → any (eqb_text nb) seen ≡ false → ¬ In nb seen
not_seen seen nb e i = clash (sym (In→any (eqb_text nb) nb seen i (eqb_text_refl nb)) ∙ e)
  where
    clash : ¬ (true ≡ false)
    clash h = ground arith

module _ (g : AssetGraph) (source target : Text) where
  pub record IsSearch (s : Search) : Type 0 where
    pub seen_eq : s.seen ≡ keys s.prev ++ source ∷ []
    pub linked : IsLinked g source s.prev
    pub missing : ¬ In target s.seen
    pub queued : (x : Text) → In x s.pending → In x s.seen

  pub is_known :
      (s : Search) → IsSearch s → (x : Text) → In x s.seen → (x ≡ source) ⊎ In x (keys s.prev)
  is_known s h x i = elim (In-append x (keys s.prev) (source ∷ []) (subst (In x) h.seen_eq i)) [
    | inl j ↦ inr j
    | inr (inl e) ↦ inl e
    | inr (inr j) ↦ absurd j
  ]

  -- What a scan of `nbs` comes to
  unfoldable pub Scanned : Search → List Text → Scan → Type 0
  Scanned s nbs (going t) = IsSearch t × Grows s t × ((x : Text) → In x nbs → In x t.seen)
  Scanned s nbs (arrived prev) = IsLinked g source prev × In target (keys prev)

  -- An entry of `prev` for a neighbour that was not seen
  link :
      (s : Search) (cur nb : Text)
      → IsSearch s
      → In cur s.seen
      → In nb (neighbours g cur)
      → ¬ In nb s.seen
      → IsLinked g source ((nb, cur) ∷ s.prev)
  link s cur nb h c e n = (
    λ f. n (subst (In nb) (sym h.seen_eq) (In-append_right nb (keys s.prev) (source ∷ []) (inl f))),
    λ i. n (subst (In nb) (sym h.seen_eq) (In-append_left nb (keys s.prev) (source ∷ []) i)),
    e,
    is_known s h cur c,
    h.linked,
  )

  visit-Scanned :
      (s : Search) (cur nb : Text)
      → IsSearch s
      → In cur s.seen
      → In nb (neighbours g cur)
      → Scanned s (nb ∷ []) (visit target cur nb s)
  unfolding visit Scanned
  visit-Scanned s cur nb h c e = elim (Bool-cases (any (eqb_text nb) s.seen)) [
    | inl f ↦
        let (y, i, k) = any→In (eqb_text nb) s.seen f in
        let there : In nb s.seen = subst (λ z. In z s.seen) (sym (eqb_text→eq nb y k)) i in
        rw f (
          h,
          Grows-refl s,
          λ x j. elim j [ inl p ↦ subst (λ z. In z s.seen) (sym p) there | inr q ↦ absurd q ],
        )
    | inr f ↦ elim (Bool-cases (eqb_text nb target)) [
      | inl k ↦
          rw (f, k)
            (link s cur nb h c e (not_seen s.seen nb f), inl (sym (eqb_text→eq nb target k)))
      | inr k ↦
          rw (f, k)
            (
              record {
                seen_eq = ap (λ l. nb ∷ l) h.seen_eq;
                linked = link s cur nb h c e (not_seen s.seen nb f);
                missing = λ i. elim i [
                  | inl p ↦ clash (sym (eqb_text_refl nb) ∙ ap (eqb_text nb) (sym p) ∙ k)
                  | inr j ↦ h.missing j
                ];
                queued = λ x i. elim (In-append x s.pending (nb ∷ []) i) [
                  | inl j ↦ inr (h.queued x j)
                  | inr (inl p) ↦ inl p
                  | inr (inr q) ↦ absurd q
                ];
              },
              record {
                seen = λ x i. inr i;
                pending = λ x i. In-append_left x s.pending (nb ∷ []) i;
                new = λ x i. elim i [
                  | inl p ↦ inr (In-append_right x s.pending (nb ∷ []) (inl p))
                  | inr j ↦ inl j
                ];
                balance = omega (arith, length-append s.pending (nb ∷ []));
              },
              λ x j. elim j [ inl p ↦ inl p | inr q ↦ absurd q ],
            )
    ]
  ]
    where
      clash : ¬ (true ≡ false)
      clash h = ground arith

  pub scan-Scanned :
      (nbs : List Text) (s : Search) (cur : Text)
      → IsSearch s
      → In cur s.seen
      → ((x : Text) → In x nbs → In x (neighbours g cur))
      → Scanned s nbs (scan target cur nbs s)
  unfolding scan then_scan Scanned
  scan-Scanned [] s cur h c all = (h, Grows-refl s, λ x i. absurd i)
  scan-Scanned (nb ∷ nbs) s cur h c all =
      next (visit target cur nb s) (visit-Scanned s cur nb h c (all nb (inl refl)))
        (λ t k d. scan-Scanned nbs t cur k d (λ x i. all x (inr i)))
    where
      join :
          (t : Search) (r : Scan)
          → IsSearch t × Grows s t × ((x : Text) → In x (nb ∷ []) → In x t.seen)
          → Scanned t nbs r
          → Scanned s (nb ∷ nbs) r
      join t (arrived prev) k m = m
      join t (going u) k m = (
        m.0,
        Grows-trans s t u k.1 m.1,
        λ x i. elim i [ inl p ↦ m.1.seen x (k.2 x (inl p)) | inr j ↦ m.2 x j ],
      )

      next :
          (r : Scan)
          → Scanned s (nb ∷ []) r
          → ((t : Search) → IsSearch t → In cur t.seen → Scanned t nbs (scan target cur nbs t))
          → Scanned s (nb ∷ nbs) (then_scan r (scan target cur nbs))
      next (arrived prev) k rec = k
      next (going t) k rec = join t (scan target cur nbs t) k (rec t k.0 (k.1.seen cur c))
