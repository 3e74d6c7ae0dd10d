-- ===== src/Prelude/Sets.antt =====
-- Sets as lists: what Python's set operations hold.
use mathlib.Core.Path.{◌≡◌, refl, sym, subst, ◌∙◌}
use mathlib.Core.Bool.{Bool, true, false, not}
use mathlib.Core.Logic.{◌↔◌, ◌⊎◌, inl, inr}
use mathlib.Core.List.{List, [], ◌∷◌, ◌++◌}
use native.Mathlib.Omega.{arith}
use helios_net.Prelude.Tests.{if◌then◌else◌, Bool-cases}
use helios_net.Prelude.Lists.{
  any, keep, In, In-append, In-append_left, In-append_right, any→In, In→any, In-keep, keep-In,
  Unique, Unique-snoc,
}
use helios_net.Prelude.Eq.{Eq, eqb}

module _ {A : Type 0} ⦃e : Eq A⦄ where
  -- `x in xs`
  abbrev pub mem : A → List A → Bool
  mem x xs = any (eqb x) xs

  pub mem_iff : (x : A) (xs : List A) → (mem x xs ≡ true) ↔ In x xs
  mem_iff x xs = (
    λ h. let (y, i, f) = any→In (eqb x) xs h in subst (λ z. In z xs) (sym (e.beq→eq x y f)) i,
    λ i. In→any (eqb x) x xs i (e.beq_refl x),
  )

  pub mem-false : (x : A) (xs : List A) → mem x xs ≡ false → ¬ In x xs
  mem-false x xs h i = clash (sym ((mem_iff x xs).1 i) ∙ h)
    where
      clash : ¬ (true ≡ false)
      clash k = ground arith

  -- `set(xs)` and a set comprehension
  unfoldable pub to_set : List A → List A
  to_set [] = []
  to_set (x ∷ xs) = let rest = to_set xs in if mem x rest then rest else x ∷ rest

  -- `.add` of a set
  unfoldable pub set_add : List A → A → List A
  set_add xs x = if mem x xs then xs else xs ++ x ∷ []

  -- `a - b`
  abbrev pub difference : List A → List A → List A
  difference a b = keep (λ x. not (mem x b)) a

  -- `a & b`
  abbrev pub intersection : List A → List A → List A
  intersection a b = keep (λ x. mem x b) a

  -- A list without repetitions gains an element unless it has it.
  added :
      (x y : A) (xs ys : List A) (known : Bool)
      → mem x xs ≡ known
      → ((In y ys) ↔ (In y xs ⊎ (y ≡ x)))
      → In y (if known then xs else ys) ↔ (In y xs ⊎ (y ≡ x))
  added x y xs ys true h f = (
    λ i. inl i,
    λ i. elim i [ inl j ↦ j | inr k ↦ subst (λ z. In z xs) (sym k) ((mem_iff x xs).0 h) ],
  )
  added x y xs ys false h f = f

  pub In-set_add : (xs : List A) (x y : A) → In y (set_add xs x) ↔ (In y xs ⊎ (y ≡ x))
  unfolding set_add
  In-set_add xs x y = added x y xs (xs ++ x ∷ []) (mem x xs) refl (
    λ i. elim (In-append y xs (x ∷ []) i) [
      | inl j ↦ inl j
      | inr (inl k) ↦ inr k
      | inr (inr k) ↦ absurd k
    ],
    λ i. elim i [
      | inl j ↦ In-append_left y xs (x ∷ []) j
      | inr k ↦ In-append_right y xs (x ∷ []) (inl k)
    ],
  )

  pub Unique-set_add : (xs : List A) (x : A) → Unique xs → Unique (set_add xs x)
  unfolding set_add
  Unique-set_add xs x u = elim (Bool-cases (mem x xs)) [
    | inl h ↦ rw h u
    | inr h ↦ rw h (Unique-snoc xs x u (mem-false x xs h))
  ]

  pub In-to_set : (xs : List A) (y : A) → In y (to_set xs) ↔ In y xs
  unfolding to_set
  In-to_set [] y = (λ i. i, λ i. i)
  In-to_set (x ∷ xs) y =
      let rest = In-to_set xs y in
      let here = added x y (to_set xs) (x ∷ to_set xs) (mem x (to_set xs)) refl (
        λ i. elim i [ inl k ↦ inr k | inr j ↦ inl j ],
        λ i. elim i [ inl j ↦ inr j | inr k ↦ inl k ],
      ) in
      (
        λ i. elim (here.0 i) [ inl j ↦ inr (rest.0 j) | inr k ↦ inl k ],
        λ i. here.1 (elim i [ inl k ↦ inr k | inr j ↦ inl (rest.1 j) ]),
      )

  pub to_set-Unique : (xs : List A) → Unique (to_set xs)
  unfolding to_set
  to_set-Unique [] = tt
  to_set-Unique (x ∷ xs) = elim (Bool-cases (mem x (to_set xs))) [
    | inl h ↦ rw h (to_set-Unique xs)
    | inr h ↦ rw h (mem-false x (to_set xs) h, to_set-Unique xs)
  ]

  pub Unique-keep : (f : A → Bool) (xs : List A) → Unique xs → Unique (keep f xs)
  Unique-keep f [] u = tt
  Unique-keep f (x ∷ xs) u = elim (Bool-cases (f x)) [
    | inl h ↦ rw h ((λ i. u.0 (In-keep x f xs i).0), Unique-keep f xs u.1)
    | inr h ↦ rw h (Unique-keep f xs u.1)
  ]

  pub In-difference : (a b : List A) (x : A) → In x (difference a b) ↔ (In x a × (¬ In x b))
  In-difference a b x = (
    λ i. let (j, h) = In-keep x (λ y. not (mem y b)) a i in (j, mem-false x b (ground (arith, h))),
    λ (i, n).
        keep-In x (λ y. not (mem y b)) a i
          (elim (Bool-cases (mem x b)) [
            | inl h ↦ absurd (n ((mem_iff x b).0 h))
            | inr h ↦ rw h refl
          ]),
  )

  pub In-intersection : (a b : List A) (x : A) → In x (intersection a b) ↔ (In x a × In x b)
  In-intersection a b x = (
    λ i. let (j, h) = In-keep x (λ y. mem y b) a i in (j, (mem_iff x b).0 h),
    λ (i, j). keep-In x (λ y. mem y b) a i ((mem_iff x b).1 j),
  )
