-- ===== src/Prelude/Lists.antt =====
-- Lists under native numbers: lengths and slices, and predicates by recursion.
use Prim.Native.Nat.{ℕ, zero, suc, ◌+◌, ◌-◌, ◌≤◌, min}
use mathlib.Core.Path.{◌≡◌, refl, sym, ap, subst, ◌∙◌}
use mathlib.Core.Logic.{◌⊎◌, inl, inr}
use mathlib.Core.Bool.{Bool, true, false, ◌&&◌, ◌||◌, not}
use mathlib.Core.List.{List, [], ◌∷◌, ◌++◌, Permᴰ, append_assoc}
use mathlib.Core.List.Permᴰ
use native.Mathlib.Omega.{arith}
use helios_net.Prelude.Tests.{if◌then◌else◌, Bool-cases}

module _ {ℓ} {A : Type ℓ} where
  abbrev pub length : List A → ℕ
  length [] = 0
  length (x ∷ xs) = suc (length xs)

  -- `xs[:n]`
  abbrev pub take : ℕ → List A → List A
  take zero xs = []
  take (suc n) [] = []
  take (suc n) (x ∷ xs) = x ∷ take n xs

  -- `xs[n:]`
  abbrev pub drop : ℕ → List A → List A
  drop zero xs = xs
  drop (suc n) [] = []
  drop (suc n) (x ∷ xs) = drop n xs

  -- `"".join` of a list of lists
  abbrev pub concat : List (List A) → List A
  concat [] = []
  concat (x ∷ xs) = x ++ concat xs

  abbrev pub All {κ} : (A → Type κ) → List A → Type κ
  All P [] = Unit
  All P (x ∷ xs) = P x × All P xs

  -- `[x for x in xs if p(x)]`
  abbrev pub keep : (A → Bool) → List A → List A
  keep p [] = []
  keep p (x ∷ xs) = let rest = keep p xs in if p x then x ∷ rest else rest

  -- `all(p(x) for x in xs)`
  abbrev pub all : (A → Bool) → List A → Bool
  all p [] = true
  all p (x ∷ xs) = p x && all p xs

  -- `any(p(x) for x in xs)`
  abbrev pub any : (A → Bool) → List A → Bool
  any p [] = false
  any p (x ∷ xs) = p x || any p xs

module _ {ℓ} {A : Type ℓ} where
  pub length-append : (xs ys : List A) → length (xs ++ ys) ≡ length xs + length ys
  length-append [] ys = omega arith
  length-append (x ∷ xs) ys = omega (arith, length-append xs ys)

  pub take-append-drop : (n : ℕ) (xs : List A) → take n xs ++ drop n xs ≡ xs
  take-append-drop zero xs = refl
  take-append-drop (suc n) [] = refl
  take-append-drop (suc n) (x ∷ xs) = rw (take-append-drop n xs)

  pub length-take : (n : ℕ) (xs : List A) → length (take n xs) ≡ min n (length xs)
  length-take zero xs = omega arith
  length-take (suc n) [] = omega arith
  length-take (suc n) (x ∷ xs) = omega (arith, length-take n xs)

  pub length-drop : (n : ℕ) (xs : List A) → length (drop n xs) ≡ length xs - n
  length-drop zero xs = omega arith
  length-drop (suc n) [] = omega arith
  length-drop (suc n) (x ∷ xs) = omega (arith, length-drop n xs)

  pub take-append : (xs ys : List A) → take (length xs) (xs ++ ys) ≡ xs
  take-append [] ys = refl
  take-append (x ∷ xs) ys = ap (λ r. x ∷ r) (take-append xs ys)

  pub drop-append : (xs ys : List A) → drop (length xs) (xs ++ ys) ≡ ys
  drop-append [] ys = refl
  drop-append (x ∷ xs) ys = drop-append xs ys

  pub concat-append : (xs ys : List (List A)) → concat (xs ++ ys) ≡ concat xs ++ concat ys
  concat-append [] ys = refl
  concat-append (x ∷ xs) ys = simp (concat-append xs ys, append_assoc)

  pub length-keep-le : (p : A → Bool) (xs : List A) → length (keep p xs) ≤ length xs
  length-keep-le p [] = omega arith
  length-keep-le p (x ∷ xs) = ground (arith, length-keep-le p xs)

  pub length-perm : {xs ys : List A} → Permᴰ xs ys → length xs ≡ length ys
  length-perm Permᴰ.nil = refl
  length-perm (Permᴰ.cons e p) = ap suc (length-perm p)
  length-perm (Permᴰ.swap e f) = refl
  length-perm (Permᴰ.trans p q) = length-perm p ∙ length-perm q

  -- the kept elements and the others are the list again, in another order
  pub keep-append-perm :
      (p : A → Bool) (xs : List A) → Permᴰ (keep p xs ++ keep (λ x. not (p x)) xs) xs
  keep-append-perm p [] = Permᴰ.nil
  keep-append-perm p (x ∷ xs) = elim (Bool-cases (p x)) [
    | inl e ↦ rw e (Permᴰ.cons refl (keep-append-perm p xs))
    | inr e ↦ rw e (
        Permᴰ.trans (Permᴰ.middle x (keep p xs) (keep (λ y. not (p y)) xs))
          (Permᴰ.cons refl (keep-append-perm p xs)))
  ]

module _ {ℓ κ} {A : Type ℓ} (P : A → Type κ) where
  pub All-prefix : (xs ys : List A) → All P (xs ++ ys) → All P xs
  All-prefix [] ys h = tt
  All-prefix (x ∷ xs) ys h = (h.0, All-prefix xs ys h.1)

  pub All-append : (xs ys : List A) → All P xs → All P ys → All P (xs ++ ys)
  All-append [] ys h k = k
  All-append (x ∷ xs) ys h k = (h.0, All-append xs ys h.1 k)

  pub All-append_left : (xs ys : List A) → All P (xs ++ ys) → All P xs
  All-append_left [] ys h = tt
  All-append_left (x ∷ xs) ys h = (h.0, All-append_left xs ys h.1)

  pub All-append_right : (xs ys : List A) → All P (xs ++ ys) → All P ys
  All-append_right [] ys h = h
  All-append_right (x ∷ xs) ys h = All-append_right xs ys h.1

  pub All-perm : {xs ys : List A} → Permᴰ xs ys → All P xs → All P ys
  All-perm Permᴰ.nil h = tt
  All-perm (Permᴰ.cons e p) h = (subst P e h.0, All-perm p h.1)
  All-perm (Permᴰ.swap e f) h = (subst P f h.1.0, (subst P e h.0, h.1.1))
  All-perm (Permᴰ.trans p q) h = All-perm q (All-perm p h)

  pub All-take : (n : ℕ) (xs : List A) → All P xs → All P (take n xs)
  All-take zero xs h = tt
  All-take (suc n) [] h = tt
  All-take (suc n) (x ∷ xs) h = (h.0, All-take n xs h.1)

-- `x` stands in the list.
abbrev pub In : {A : Type 0} → A → List A → Type 0
In x [] = ⊥
In x (y ∷ ys) = (x ≡ y) ⊎ In x ys

module _ {A : Type 0} (P : A → Type 0) where
  pub All-In : (x : A) (xs : List A) → All P xs → In x xs → P x
  All-In x [] h i = absurd i
  All-In x (y ∷ xs) h (inl e) = subst P (sym e) h.0
  All-In x (y ∷ xs) h (inr i) = All-In x xs h.1 i

  pub All-of_In : (xs : List A) → ((x : A) → In x xs → P x) → All P xs
  All-of_In [] f = tt
  All-of_In (x ∷ xs) f = (f x (inl refl), All-of_In xs (λ y i. f y (inr i)))

module _ {A : Type 0} (x : A) where
  pub In-perm : {xs ys : List A} → Permᴰ xs ys → In x xs → In x ys
  In-perm Permᴰ.nil i = i
  In-perm (Permᴰ.cons e p) (inl a) = inl (a ∙ e)
  In-perm (Permᴰ.cons e p) (inr i) = inr (In-perm p i)
  In-perm (Permᴰ.swap e f) (inl a) = inr (inl (a ∙ e))
  In-perm (Permᴰ.swap e f) (inr (inl a)) = inl (a ∙ f)
  In-perm (Permᴰ.swap e f) (inr (inr i)) = inr (inr i)
  In-perm (Permᴰ.trans p q) i = In-perm q (In-perm p i)

  pub In-append : (xs ys : List A) → In x (xs ++ ys) → In x xs ⊎ In x ys
  In-append [] ys i = inr i
  In-append (y ∷ xs) ys (inl e) = inl (inl e)
  In-append (y ∷ xs) ys (inr i) = elim (In-append xs ys i) [ inl a ↦ inl (inr a) | inr b ↦ inr b ]

  pub In-append_left : (xs ys : List A) → In x xs → In x (xs ++ ys)
  In-append_left [] ys i = absurd i
  In-append_left (y ∷ xs) ys (inl e) = inl e
  In-append_left (y ∷ xs) ys (inr i) = inr (In-append_left xs ys i)

  pub In-append_right : (xs ys : List A) → In x ys → In x (xs ++ ys)
  In-append_right [] ys i = i
  In-append_right (y ∷ xs) ys i = inr (In-append_right xs ys i)

  pub In-keep : (p : A → Bool) (xs : List A) → In x (keep p xs) → In x xs × (p x ≡ true)
  In-keep p [] i = absurd i
  In-keep p (y ∷ ys) i = elim (Bool-cases (p y)) [
    | inl e ↦ kept e (In-keep p ys) (rw e at i)
    | inr e ↦ let r = In-keep p ys (rw e at i) in (inr r.0, r.1)
  ]
    where
      kept :
          p y ≡ true
          → (In x (keep p ys) → In x ys × (p x ≡ true))
          → In x (y ∷ keep p ys)
          → In x (y ∷ ys) × (p x ≡ true)
      kept e rec (inl a) = (inl a, ap p a ∙ e)
      kept e rec (inr b) = let r = rec b in (inr r.0, r.1)

module _ {A : Type 0} (p : A → Bool) where
  pub any→In : (xs : List A) → any p xs ≡ true → (x : A) × In x xs × (p x ≡ true)
  any→In [] h = ground arith
  any→In (x ∷ xs) h = elim (Bool-cases (p x)) [
    | inl e ↦ (x, inl refl, e)
    | inr e ↦ let (y, i, f) = any→In xs (rw e at h) in (y, inr i, f)
  ]

  pub In→any : (x : A) (xs : List A) → In x xs → p x ≡ true → any p xs ≡ true
  In→any x [] i h = absurd i
  In→any x (y ∷ xs) (inl e) h = let here : p y ≡ true = subst (λ z. p z ≡ true) e h in rw here
  In→any x (y ∷ xs) (inr i) h = let later = In→any x xs i h in ground (arith, later)

-- No element stands in the list twice.
abbrev pub Unique : {A : Type 0} → List A → Type 0
Unique [] = Unit
Unique (x ∷ xs) = (¬ In x xs) × Unique xs

module _ {A : Type 0} where
  pub Unique-snoc : (xs : List A) (x : A) → Unique xs → ¬ In x xs → Unique (xs ++ x ∷ [])
  Unique-snoc [] x u n = (λ i. i, tt)
  Unique-snoc (y ∷ xs) x u n = (
    λ i. elim (In-append y xs (x ∷ []) i) [
      | inl j ↦ u.0 j
      | inr (inl e) ↦ n (inl (sym e))
      | inr (inr j) ↦ j
    ],
    Unique-snoc xs x u.1 (λ i. n (inr i)),
  )

module _ {A : Type 0} (x : A) (p : A → Bool) where
  pub keep-In : (xs : List A) → In x xs → p x ≡ true → In x (keep p xs)
  keep-In [] i h = absurd i
  keep-In (y ∷ ys) (inl e) h =
      let here : p y ≡ true = subst (λ z. p z ≡ true) e h in rw here (inl e)
  keep-In (y ∷ ys) (inr i) h = elim (Bool-cases (p y)) [
    | inl e ↦ rw e (inr (keep-In ys i h))
    | inr e ↦ rw e (keep-In ys i h)
  ]
