-- ===== src/Scope/Config.antt =====
-- `_ports` and `_strings` of core/scope.py, which validate the lists of a scope file.
use helios_net.Prelude.{
  ◌≡◌, ◌≢◌, refl, sym, ap, subst, ◌∙◌, ◌↔◌, ◌⊎◌, inl, inr, Bool, true, false, ◌&&◌, Bool-cases,
  if◌then◌else◌, Option, Option-cases, none, some, List, [], ◌∷◌, map, any, All, arith,
}
use helios_net.Prelude.Int.{ℤ, pos, leb_ℤ, ◌≤ℤ◌}
use helios_net.Prelude.Text.{Text, codes, eqb_text}
use helios_net.Scope.{strip}

-- A value in a list of the file.
pub data Leaf : Type 0 where
  string : Text → Leaf
  integer : ℤ → Leaf
  boolean : Bool → Leaf
  other : Leaf

-- What the `ScopeError` says.
pub data Malformed : Type 0 where
  not_a_list not_an_integer not_strings empty_entry wildcard : Malformed
  out_of_range : ℤ → Malformed

unfoldable pub add_port : ℤ → Malformed ⊎ List ℤ → Malformed ⊎ List ℤ
add_port p (inl err) = inl err
add_port p (inr ps) = inr (p ∷ ps)

-- `1 <= item <= 65535`
unfoldable pub in_range : ℤ → Bool
in_range p = leb_ℤ (pos 1) p && leb_ℤ p (pos 65535)

unfoldable pub ports_loop : List Leaf → Malformed ⊎ List ℤ
unfolding add_port in_range
ports_loop [] = inr []
ports_loop (integer p ∷ items) =
    let rest = ports_loop items in if in_range p then add_port p rest else inl (out_of_range p)
ports_loop (string s ∷ items) = inl not_an_integer
ports_loop (boolean b ∷ items) = inl not_an_integer
ports_loop (other ∷ items) = inl not_an_integer

-- `_ports` of a value, `none` if it is no list
unfoldable pub ports_of : Option (List Leaf) → Malformed ⊎ List ℤ
unfolding ports_loop
ports_of none = inl not_a_list
ports_of (some items) = ports_loop items

abbrev pub IsPort : ℤ → Type 0
IsPort p = (pos 1 ≤ℤ p) × (p ≤ℤ pos 65535)

in_range→IsPort : (p : ℤ) → in_range p ≡ true → IsPort p
unfolding in_range
in_range→IsPort p h = (ground arith, ground arith)

IsPort→in_range : (p : ℤ) → IsPort p → in_range p ≡ true
unfolding in_range
IsPort→in_range p h = ground arith

add_port-inr :
    (p : ℤ) (rest : Malformed ⊎ List ℤ) (ps : List ℤ)
    → add_port p rest ≡ inr ps
    → (qs : List ℤ) × (rest ≡ inr qs) × (p ∷ qs ≡ ps)
unfolding add_port
add_port-inr p (inl err) ps h = ground arith
add_port-inr p (inr qs) ps h = (qs, refl, cc h)

ports_loop-inr :
    (items : List Leaf) (ps : List ℤ)
    → ports_loop items ≡ inr ps
    → (items ≡ map integer ps) × All IsPort ps
unfolding ports_loop
ports_loop-inr [] ps h = let e : [] ≡ ps = cc h in (ap (map integer) e, subst (All IsPort) e tt)
ports_loop-inr (integer p ∷ items) ps h = elim (Bool-cases (in_range p)) [
  | inl e ↦
      let (qs, f, g) = add_port-inr p (ports_loop items) ps (rw e at h) in
      let (k, ok) = ports_loop-inr items qs f in
      (
        ap (λ r. integer p ∷ r) k ∙ ap (map integer) g,
        subst (All IsPort) g (in_range→IsPort p e, ok),
      )
  | inr e ↦ absurd (wrong (rw e at h))
]
  where
    wrong : ¬ (inl (out_of_range p) ≡ inr ps)
    wrong k = ground arith
ports_loop-inr (string s ∷ items) ps h = ground arith
ports_loop-inr (boolean b ∷ items) ps h = ground arith
ports_loop-inr (other ∷ items) ps h = ground arith

ports_loop-integers : (ps : List ℤ) → All IsPort ps → ports_loop (map integer ps) ≡ inr ps
unfolding ports_loop
ports_loop-integers [] ok = refl
ports_loop-integers (p ∷ ps) ok =
    rw (IsPort→in_range p ok.0, ports_loop-integers ps ok.1) (unfold add_port in refl)

-- `_ports` returns a list of ports just where the value is the list of these integers, and each of
-- them is from 1 to 65535.
pub ports_of_iff :
    (value : Option (List Leaf)) (ps : List ℤ)
    → (ports_of value ≡ inr ps) ↔ ((value ≡ some (map integer ps)) × All IsPort ps)
unfolding ports_of
ports_of_iff none ps = (λ h. ground arith, λ h. ground arith)
ports_of_iff (some items) ps = (
  λ h. let (e, ok) = ports_loop-inr items ps h in (ap some e, ok),
  λ h. subst (λ v. ports_of v ≡ inr ps) (sym h.0) (unfold ports_of in ports_loop-integers ps h.1),
)

-- The entries if all of them are strings
unfoldable pub all_strings : List Leaf → Option (List Text)
all_strings [] = some []
all_strings (string s ∷ items) =
    let rest = all_strings items in elim rest [ none ↦ none | some ts ↦ some (s ∷ ts) ]
all_strings (integer p ∷ items) = none
all_strings (boolean b ∷ items) = none
all_strings (other ∷ items) = none

unfoldable pub is_empty : Text → Bool
is_empty [] = true
is_empty (c ∷ s) = false

-- `_strings` once the entries are known to be strings
unfoldable pub clean_strings : List Text → Malformed ⊎ List Text
unfolding is_empty strip
clean_strings ts =
    let cleaned = map strip ts in
    if any is_empty cleaned
    then inl empty_entry
    else if any (λ v. eqb_text v (codes "*")) cleaned
    then inl wildcard
    else inr cleaned

unfoldable pub strings_read : Option (List Text) → Malformed ⊎ List Text
unfolding clean_strings
strings_read none = inl not_strings
strings_read (some ts) = clean_strings ts

-- `_strings` of a value, `none` if it is no list
unfoldable pub strings_of : Option (List Leaf) → Malformed ⊎ List Text
unfolding strings_read all_strings
strings_of none = inl not_strings
strings_of (some items) = strings_read (all_strings items)

-- An entry that names something, but not every target
abbrev pub IsEntry : Text → Type 0
IsEntry t = (t ≢ []) × (t ≢ codes "*")

entries-All :
    (ts : List Text)
    → any is_empty ts ≡ false
    → any (λ v. eqb_text v (codes "*")) ts ≡ false
    → All IsEntry ts
unfolding is_empty
entries-All [] h k = tt
entries-All (t ∷ ts) h k = (
  (
    λ e. let here : is_empty t ≡ true = ap is_empty e in ground (arith, here, h),
    λ e.
        let here : eqb_text t (codes "*") ≡ true = ap (λ v. eqb_text v (codes "*")) e in
        ground (arith, here, k),
  ),
  entries-All ts (ground (arith, h)) (ground (arith, k)),
)

clean_strings-accepted :
    (raw : List Text)
    → any is_empty (map strip raw) ≡ false
    → any (λ v. eqb_text v (codes "*")) (map strip raw) ≡ false
    → clean_strings raw ≡ inr (map strip raw)
unfolding clean_strings
clean_strings-accepted raw e f = rw (e, f)

inr_eq : {a b : List Text} → ◌≡◌ {A = Malformed ⊎ List Text} (inr a) (inr b) → a ≡ b
inr_eq h = cc h

clean_strings-inr :
    (raw ts : List Text) → clean_strings raw ≡ inr ts → (map strip raw ≡ ts) × All IsEntry ts
clean_strings-inr raw ts h = elim (Bool-cases (any is_empty (map strip raw))) [
  | inl e ↦ absurd (wrong {err = empty_entry} (unfold clean_strings in rw e at h))
  | inr e ↦ elim (Bool-cases (any (λ v. eqb_text v (codes "*")) (map strip raw))) [
    | inl f ↦ absurd (wrong {err = wildcard} (unfold clean_strings in rw (e, f) at h))
    | inr f ↦
        let g = inr_eq (sym (clean_strings-accepted raw e f) ∙ h) in
        (g, subst (All IsEntry) g (entries-All (map strip raw) e f))
  ]
]
  where
    wrong : {err : Malformed} → ¬ (inl err ≡ inr ts)
    wrong k = ground arith

all_strings-some :
    (items : List Leaf) (raw : List Text) → all_strings items ≡ some raw → items ≡ map string raw
unfolding all_strings
all_strings-some [] raw h = let e : [] ≡ raw = cc h in ap (map string) e
all_strings-some (string s ∷ items) raw h = elim (Option-cases (all_strings items)) [
  | inl e ↦ absurd (none_not_some (rw e at h))
  | inr (ts, e) ↦
      let k : some (s ∷ ts) ≡ some raw = rw e at h in
      let g : s ∷ ts ≡ raw = cc k in
      ap (λ r. string s ∷ r) (all_strings-some items ts e) ∙ ap (map string) g
]
  where
    none_not_some : ¬ (none ≡ some raw)
    none_not_some k = ground arith
all_strings-some (integer p ∷ items) raw h = ground arith
all_strings-some (boolean b ∷ items) raw h = ground arith
all_strings-some (other ∷ items) raw h = ground arith

-- What `_strings` returns are the stripped entries of a list of strings, and none of them is empty
-- or `*`.
pub strings_of-IsEntry :
    (value : Option (List Leaf)) (ts : List Text)
    → strings_of value ≡ inr ts
    → (raw : List Text) × (value ≡ some (map string raw)) × (map strip raw ≡ ts) × All IsEntry ts
strings_of-IsEntry none ts h = absurd (refused (unfold strings_of in h))
  where
    refused : ¬ (inl not_strings ≡ inr ts)
    refused k = ground arith
strings_of-IsEntry (some items) ts h = elim (Option-cases (all_strings items)) [
  | inl e ↦ absurd (refused (unfold strings_of strings_read in rw e at h))
  | inr (raw, e) ↦
      let (k, ok) = clean_strings-inr raw ts (unfold strings_of strings_read in rw e at h) in
      (raw, ap some (all_strings-some items raw e), k, ok)
]
  where
    refused : ¬ (inl not_strings ≡ inr ts)
    refused k = ground arith
