-- ===== src/Accel/Normalise.antt =====
-- `_normalise` of core/accel.py: the hits as a set in a fixed order.
use mathlib.Core.List.Permᴰ
use helios_net.Prelude.{◌≡◌, ◌↔◌, true, List, In, In-perm, Unique, arith}
use helios_net.Prelude.Int.{eq_of_parts}
use helios_net.Prelude.Sort.{IsSorted, IsOrder, sort_by-perm, sort_by-IsSorted}
use helios_net.Prelude.SortedSets.{Unique-perm, sorted_eq}
use helios_net.Prelude.TextOrder.{le_text_antisym, le_text_total, le_text_trans}
use helios_net.Prelude.Sets.{to_set, In-to_set, to_set-Unique}
use helios_net.Accel.Match.{Match, le_match, match_eq, normalise_hits}

le_match-IsOrder : IsOrder le_match
unfolding le_match
le_match-IsOrder = record {
  total = λ m n h. ground (arith, le_text_total m.signature n.signature);
  trans = λ m n o h k. ground (arith, le_text_trans m.signature n.signature o.signature);
}

le_match_antisym : (m n : Match) → le_match m n ≡ true → le_match n m ≡ true → m ≡ n
unfolding le_match
le_match_antisym m n h k =
    let p = eq_of_parts m.position n.position (ground arith) in
    let s = le_text_antisym m.signature n.signature (ground arith) (ground arith) in cc (p, s)

-- Normalised hits are the hits in the order of position and signature, each once.
pub normalise_hits-IsSorted :
    (hits : List Match)
    → IsSorted le_match (normalise_hits hits)
      × Unique (normalise_hits hits)
      × ((x : Match) → In x (normalise_hits hits) ↔ In x hits)
unfolding normalise_hits
normalise_hits-IsSorted hits =
    let perm = sort_by-perm le_match (to_set hits) in
    (
      sort_by-IsSorted le_match le_match-IsOrder (to_set hits),
      Unique-perm (Permᴰ.symm perm) (to_set-Unique hits),
      λ x. (
        λ i. (In-to_set hits x).0 (In-perm x perm i),
        λ i. In-perm x (Permᴰ.symm perm) ((In-to_set hits x).1 i),
      ),
    )

-- Two backends that report the same set of hits, in whatever order and however often, give the same
-- result.
pub normalise_hits_eq :
    (hits others : List Match)
    → ((x : Match) → In x hits ↔ In x others)
    → normalise_hits hits ≡ normalise_hits others
normalise_hits_eq hits others h =
    let (s, u, i) = normalise_hits-IsSorted hits in
    let (t, v, j) = normalise_hits-IsSorted others in
    sorted_eq le_match le_match_antisym (normalise_hits hits) (normalise_hits others) s t u v
      (λ x. (λ k. (j x).1 ((h x).0 ((i x).0 k)), λ k. (i x).1 ((h x).1 ((j x).0 k))))
