-- ===== src/Signatures/Search.antt =====
-- `find_all_occurrences` against a description of the places where a pattern stands.
use helios_net.Prelude.{
  ℕ, zero, suc, ◌+◌, ◌≤◌, ◌≡◌, ◌≢◌, length-drop, length-append, append_assoc, refl, sym, ap, subst,
  ◌∙◌, ◌↔◌, inl, inr, true, Bool-cases, if◌then◌else◌, Option, none, some, List, [], ◌∷◌, ◌++◌,
  length, drop, In, arith,
}
use helios_net.Prelude.Text.{Text, starts_with}
use helios_net.Signatures.{find_from, push_start, occurrences_loop, find_all_occurrences}

-- The places from `i` on, one test at each character
abbrev pub places : Text → ℕ → Text → List ℕ
places pattern i [] = []
places pattern i (c ∷ s) =
    let later = places pattern (suc i) s in if starts_with (c ∷ s) pattern then i ∷ later else later

drop-cons : (i : ℕ) (text : Text) (c : ℕ) (s : Text) → drop i text ≡ c ∷ s → drop (suc i) text ≡ s
drop-cons zero [] c s e = ground arith
drop-cons zero (d ∷ text) c s e = cc e
drop-cons (suc i) [] c s e = ground arith
drop-cons (suc i) (d ∷ text) c s e = drop-cons i text c s e

module _ (d : ℕ) (p : Text) where
  abbrev needle : Text
  needle = d ∷ p

  none_not_some : {j : ℕ} → ¬ (none ≡ some j)
  none_not_some h = ground arith

  find_from-none : (i : ℕ) (s : Text) → find_from needle i s ≡ none → places needle i s ≡ []
  unfolding find_from
  find_from-none i [] h = refl
  find_from-none i (c ∷ s) h = elim (Bool-cases (starts_with (c ∷ s) needle)) [
    | inl e ↦ absurd (none_not_some (sym (rw e at h)))
    | inr e ↦ rw e (find_from-none (suc i) s (rw e at h))
  ]

  find_from-some :
      (text : Text) (i : ℕ) (s : Text) (j : ℕ)
      → drop i text ≡ s
      → find_from needle i s ≡ some j
      → (i ≤ j)
        × (suc j ≤ i + length s)
        × (places needle i s ≡ j ∷ places needle (suc j) (drop (suc j) text))
  unfolding find_from
  find_from-some text i [] j at h = absurd (none_not_some h)
  find_from-some text i (c ∷ s) j at h = elim (Bool-cases (starts_with (c ∷ s) needle)) [
    | inl e ↦
        let k : some i ≡ some j = rw e at h in
        let same : i ≡ j = cc k in
        let rest = drop-cons i text c s at in
        (
          omega arith,
          omega arith,
          rw e (
              subst
                (λ n. i ∷ places needle (suc i) s ≡ n ∷ places needle (suc n) (drop (suc n) text))
                same (ap (λ r. i ∷ places needle (suc i) r) (sym rest))),
        )
    | inr e ↦
        let (le, lt, found) =
          find_from-some text (suc i) s j (drop-cons i text c s at) (rw e at h) in
        (omega arith, omega arith, rw e found)
  ]

  pushed : (j : ℕ) (js : List ℕ) → push_start j (some js) ≡ some (j ∷ js)
  unfolding push_start
  pushed j js = refl

  -- Each round finds the next place, which stands in what is left of the text.
  occurrences_loop-places :
      (fuel : ℕ) (text : Text) (i : ℕ) (s : Text) (start : Option ℕ)
      → drop i text ≡ s
      → length s ≤ fuel
      → find_from needle i s ≡ start
      → occurrences_loop fuel text needle start ≡ some (places needle i s)
  unfolding occurrences_loop
  occurrences_loop-places fuel text i s none at le e = rw (find_from-none i s e) (stops fuel)
    where
      stops : (n : ℕ) → occurrences_loop n text needle none ≡ some []
      stops zero = refl
      stops (suc n) = refl
  occurrences_loop-places zero text i s (some j) at le e =
      let (above, below, _) = find_from-some text i s j at e in absurd (omega arith)
  occurrences_loop-places (suc fuel) text i s (some j) at le e =
      let (above, below, found) = find_from-some text i s j at e in
      let later =
        occurrences_loop-places fuel text (suc j) (drop (suc j) text)
          (find_from needle (suc j) (drop (suc j) text)) refl
          (omega (arith, length-drop (suc j) text, length-drop i text, ap length at)) refl in
      ap (push_start j) later ∙ pushed j _ ∙ ap some (sym found)

-- Every place is found.
find_all_occurrences-places :
    (text pattern : Text)
    → pattern ≢ []
    → find_all_occurrences text pattern ≡ some (places pattern 0 text)
unfolding find_all_occurrences
find_all_occurrences-places text [] n = absurd (n refl)
find_all_occurrences-places text (d ∷ p) n =
    occurrences_loop-places d p (length text) text 0 text _ refl (omega arith) refl

-- The pattern stands in the text behind `i` characters.
abbrev pub Occurs : Text → Text → ℕ → Type 0
Occurs pattern text i =
    (before : Text) × (after : Text) × (length before ≡ i) × (text ≡ before ++ (pattern ++ after))

starts_with→append : (s p : Text) → starts_with s p ≡ true → (after : Text) × (s ≡ p ++ after)
unfolding starts_with
starts_with→append s [] h = (s, refl)
starts_with→append [] (d ∷ p) h = ground arith
starts_with→append (c ∷ s) (d ∷ p) h =
    let (after, e) = starts_with→append s p (ground arith) in
    let c≡d : c ≡ d = ground arith in (after, cc (c≡d, e))

append→starts_with : (p after : Text) → starts_with (p ++ after) p ≡ true
unfolding starts_with
append→starts_with [] after = refl
append→starts_with (d ∷ p) after = ground (arith, append→starts_with p after)

-- The numbers go up, and none is below `i`.
abbrev pub Ascends : ℕ → List ℕ → Type 0
Ascends i [] = Unit
Ascends i (j ∷ js) = (i ≤ j) × Ascends (suc j) js

Ascends-weaken : (i : ℕ) (js : List ℕ) → Ascends (suc i) js → Ascends i js
Ascends-weaken i [] h = tt
Ascends-weaken i (j ∷ js) h = (omega (arith, h.0), h.1)

places-Ascends : (pattern : Text) (i : ℕ) (s : Text) → Ascends i (places pattern i s)
places-Ascends pattern i [] = tt
places-Ascends pattern i (c ∷ s) = elim (Bool-cases (starts_with (c ∷ s) pattern)) [
  | inl e ↦ rw e (omega arith, places-Ascends pattern (suc i) s)
  | inr e ↦ rw e (Ascends-weaken i _ (places-Ascends pattern (suc i) s))
]

-- `before` has been passed, and `s` is left.
places→Occurs :
    (pattern before s : Text) (k : ℕ)
    → In k (places pattern (length before) s)
    → Occurs pattern (before ++ s) k
places→Occurs pattern before [] k i = absurd i
places→Occurs pattern before (c ∷ s) k i =
    let later = λ (j : In k (places pattern (suc (length before)) s)).
      subst (λ t. Occurs pattern t k) (append_assoc before (c ∷ []) s)
        (places→Occurs pattern (before ++ c ∷ []) s k (
          subst (λ m. In k (places pattern m s)) (omega (arith, length-append before (c ∷ [])))
            j)) in
    elim (Bool-cases (starts_with (c ∷ s) pattern)) [
      | inl e ↦ here e later (rw e at i)
      | inr e ↦ later (rw e at i)
    ]
  where
    here :
        starts_with (c ∷ s) pattern ≡ true
        → (In k (places pattern (suc (length before)) s) → Occurs pattern (before ++ c ∷ s) k)
        → In k (length before ∷ places pattern (suc (length before)) s)
        → Occurs pattern (before ++ c ∷ s) k
    here e rec (inl f) =
        let (after, g) = starts_with→append (c ∷ s) pattern e in
        (before, after, sym f, ap (λ r. before ++ r) g)
    here e rec (inr j) = rec j

Occurs→places :
    (pattern front back s : Text) (i : ℕ)
    → pattern ≢ []
    → s ≡ front ++ (pattern ++ back)
    → In (i + length front) (places pattern i s)
Occurs→places [] front back s i n e = absurd (n refl)
Occurs→places (d ∷ p) [] back [] i n e = ground arith
Occurs→places (d ∷ p) [] back (c ∷ s) i n e =
    let starts : starts_with (c ∷ s) (d ∷ p) ≡ true =
      subst (λ t. starts_with t (d ∷ p) ≡ true) (sym e) (append→starts_with (d ∷ p) back) in
    rw starts (inl (omega arith))
Occurs→places (d ∷ p) (f ∷ front) back [] i n e = ground arith
Occurs→places (d ∷ p) (f ∷ front) back (c ∷ s) i n e =
    let tail : s ≡ front ++ ((d ∷ p) ++ back) = cc e in
    let later : In (i + suc (length front)) (places (d ∷ p) (suc i) s) =
      subst (λ m. In m (places (d ∷ p) (suc i) s)) (omega arith)
        (Occurs→places (d ∷ p) front back s (suc i) n tail) in
    elim (Bool-cases (starts_with (c ∷ s) (d ∷ p))) [
      | inl starts ↦ rw starts (inr later)
      | inr starts ↦ rw starts later
    ]

-- For a pattern that is not empty the search returns, with the places in ascending order, and they
-- are just those where the pattern stands.
pub find_all_occurrences-Occurs :
    (text p : Text)
    → p ≢ []
    → (found : List ℕ) × (find_all_occurrences text p ≡ some found)
      × Ascends 0 found
      × ((k : ℕ) → In k found ↔ Occurs p text k)
find_all_occurrences-Occurs text p n = (
  places p 0 text,
  find_all_occurrences-places text p n,
  places-Ascends p 0 text,
  λ k. (
    places→Occurs p [] text k,
    λ o.
        let (before, after, e, f) = o in
        subst (λ m. In m (places p 0 text)) (omega (arith, e))
          (Occurs→places p before after text 0 n f),
  ),
)
