-- ===== src/Prelude/SortedSets.antt =====
-- Lists without repetitions: a sorted one is determined by its elements, and each is no longer than
-- one that holds its elements.
use mathlib.Core.Path.{◌≡◌, refl, sym, ap, subst, ◌∙◌}
use mathlib.Core.Bool.{Bool, true}
use mathlib.Core.Logic.{inl, inr, ◌↔◌}
use mathlib.Core.List.{List, [], ◌∷◌, ◌++◌, Permᴰ}
use mathlib.Core.List.Permᴰ
use Prim.Native.Nat.{◌≤◌}
use native.Mathlib.Omega.{arith}
use helios_net.Prelude.Lists.{
  length, length-append, In-append, In-append_left, In-append_right, In, All-In, In-perm, Unique,
}
use helios_net.Prelude.Sort.{IsSorted}

module _ {A : Type 0} where
  pub Unique-perm : {xs ys : List A} → Permᴰ xs ys → Unique xs → Unique ys
  Unique-perm Permᴰ.nil u = tt
  Unique-perm (Permᴰ.cons {l₁ = xs} e p) u =
      (λ i. u.0 (subst (λ z. In z xs) (sym e) (In-perm _ (Permᴰ.symm p) i)), Unique-perm p u.1)
  Unique-perm (Permᴰ.swap {l = l} e f) u = (
    λ i. elim i [
      | inl g ↦ u.0 (inl (e ∙ sym g ∙ sym f))
      | inr j ↦ u.1.0 (subst (λ z. In z l) (sym f) j)
    ],
    (λ i. u.0 (inr (subst (λ z. In z l) (sym e) i)), u.1.1),
  )
  Unique-perm (Permᴰ.trans p q) u = Unique-perm q (Unique-perm p u)

module _ {A : Type 0} (le : A → A → Bool)
    (antisym : (x y : A) → le x y ≡ true → le y x ≡ true → x ≡ y) where
  tail_members :
      (x : A) (xs ys : List A)
      → ¬ In x xs
      → ((m : A) → In m (x ∷ xs) → In m (x ∷ ys))
      → (m : A) → In m xs
      → In m ys
  tail_members x xs ys n h m i = elim (h m (inr i)) [
    | inl e ↦ absurd (n (subst (λ z. In z xs) e i))
    | inr j ↦ j
  ]

  pub sorted_eq :
      (xs ys : List A)
      → IsSorted le xs
      → IsSorted le ys
      → Unique xs
      → Unique ys
      → ((m : A) → In m xs ↔ In m ys)
      → xs ≡ ys
  sorted_eq [] [] s t u v h = refl
  sorted_eq [] (y ∷ ys) s t u v h = absurd ((h y).1 (inl refl))
  sorted_eq (x ∷ xs) [] s t u v h = absurd ((h x).0 (inl refl))
  sorted_eq (x ∷ xs) (y ∷ ys) s t u v h =
      let same : x ≡ y = heads ((h x).0 (inl refl)) ((h y).1 (inl refl)) in
      let h' : (m : A) → In m (x ∷ xs) ↔ In m (x ∷ ys) =
        subst (λ z. (m : A) → In m (x ∷ xs) ↔ In m (z ∷ ys)) (sym same) h in
      let fresh : ¬ In x ys = subst (λ z. ¬ In z ys) (sym same) v.0 in
      let rest = sorted_eq xs ys s.1 t.1 u.1 v.1 (λ m. (
        tail_members x xs ys u.0 (λ k. (h' k).0) m,
        tail_members x ys xs fresh (λ k. (h' k).1) m,
      )) in
      subst (λ z. x ∷ xs ≡ z ∷ ys) same (ap (λ r. x ∷ r) rest)
    where
      heads : In x (y ∷ ys) → In y (x ∷ xs) → x ≡ y
      heads (inl e) j = e
      heads (inr i) (inl e) = sym e
      heads (inr i) (inr j) =
          antisym x y (All-In (λ z. le x z ≡ true) y xs s.0 j)
            (All-In (λ z. le y z ≡ true) x ys t.0 i)

-- A list without repetitions is no longer than one that holds its elements.
module _ {A : Type 0} where
  split :
      (x : A) (ys : List A)
      → In x ys
      → (front : List A) × (back : List A) × (ys ≡ front ++ x ∷ back)
  split x [] i = absurd i
  split x (y ∷ ys) (inl e) = ([], ys, ap (λ z. z ∷ ys) (sym e))
  split x (y ∷ ys) (inr i) =
      let (front, back, e) = split x ys i in (y ∷ front, back, ap (λ l. y ∷ l) e)

  pub length-Unique :
      (xs ys : List A) → Unique xs → ((x : A) → In x xs → In x ys) → length xs ≤ length ys
  length-Unique [] ys u h = omega arith
  length-Unique (x ∷ xs) ys u h =
      let (front, back, e) = split x ys (h x (inl refl)) in
      let shorter =
        length-Unique xs (front ++ back) u.1
          (λ y i. without y front back i (subst (In y) e (h y (inr i)))) in
      omega (arith, shorter, length-append front back, length-append front (x ∷ back), ap length e)
    where
      without :
          (y : A) (front back : List A) → In y xs → In y (front ++ x ∷ back) → In y (front ++ back)
      without y front back i j = elim (In-append y front (x ∷ back) j) [
        | inl k ↦ In-append_left y front back k
        | inr (inl e) ↦ absurd (u.0 (subst (λ z. In z xs) e i))
        | inr (inr k) ↦ In-append_right y front back k
      ]
