-- ===== src/Planner/Schedule/Remaining.antt =====
-- The dictionary `remaining`: what a wave takes out of it, and what is left.
use mathlib.Core.List.Permᴰ
use helios_net.Prelude.{
  ℕ, ◌≡◌, ◌≢◌, refl, sym, ap, subst, ◌∙◌, inl, inr, Bool, true, false, not, List, [], ◌∷◌, ◌++◌,
  Permᴰ, All, All-perm, keep, if◌then◌else◌, Bool-cases, arith, ◌==◌,
}
use helios_net.Planner.Steps.{PlanStep}
use helios_net.Planner.Schedule.{remove, remove_all}

-- No two of the steps have the same id.
abbrev pub Distinct : List PlanStep → Type 0
Distinct [] = Unit
Distinct (s ∷ ss) = All (λ t. s.step_id ≢ t.step_id) ss × Distinct ss

pub Distinct-perm : {xs ys : List PlanStep} → Permᴰ xs ys → Distinct xs → Distinct ys
Distinct-perm Permᴰ.nil h = tt
Distinct-perm (Permᴰ.cons {a} {b} {l₁} {l₂} e p) h = (
  subst (λ (u : PlanStep). All (λ t. u.step_id ≢ t.step_id) l₂) e
      (All-perm (λ t. a.step_id ≢ t.step_id) p h.0),
  Distinct-perm p h.1,
)
Distinct-perm (Permᴰ.swap {a} {b} {a'} {b'} {l} e f) h = (
  (
    λ q.
        h.0.0
          (ap (λ (u : PlanStep). u.step_id) e ∙ sym q ∙ ap (λ (u : PlanStep). u.step_id) (sym f)),
    subst (λ (u : PlanStep). All (λ t. u.step_id ≢ t.step_id) l) f h.1.0,
  ),
  (subst (λ (u : PlanStep). All (λ t. u.step_id ≢ t.step_id) l) e h.0.1, h.1.1),
)
Distinct-perm (Permᴰ.trans p q) h = Distinct-perm q (Distinct-perm p h)

keep-perm :
    (p : PlanStep → Bool) {xs ys : List PlanStep} → Permᴰ xs ys → Permᴰ (keep p xs) (keep p ys)
keep-perm p Permᴰ.nil = Permᴰ.nil
keep-perm p (Permᴰ.cons {a} {b} e q) = elim (Bool-cases (p a)) [
  | inl h ↦ rw (h, sym (ap p e) ∙ h) (Permᴰ.cons e (keep-perm p q))
  | inr h ↦ rw (h, sym (ap p e) ∙ h) (keep-perm p q)
]
keep-perm p (Permᴰ.swap {a} {b} {a'} {b'} {l} e f) = rw (← e, ← f) (swapped (p a) (p b))
  where
    swapped :
        (c d : Bool)
        → Permᴰ {A = PlanStep}
            (if c
              then a ∷ (if d then b ∷ keep p l else keep p l)
              else (if d then b ∷ keep p l else keep p l))
            (if d
              then b ∷ (if c then a ∷ keep p l else keep p l)
              else (if c then a ∷ keep p l else keep p l))
    swapped true true = Permᴰ.swap refl refl
    swapped true false = Permᴰ.refl (a ∷ keep p l)
    swapped false true = Permᴰ.refl (b ∷ keep p l)
    swapped false false = Permᴰ.refl (keep p l)
keep-perm p (Permᴰ.trans q r) = Permᴰ.trans (keep-perm p q) (keep-perm p r)

keep-others :
    (s : PlanStep) (xs : List PlanStep)
    → All (λ t. s.step_id ≢ t.step_id) xs
    → keep (λ t. not (t.step_id == s.step_id)) xs ≡ xs
keep-others s [] h = refl
keep-others s (x ∷ xs) h = ground (arith, keep-others s xs h.1)

-- `del remaining[s.step_id]` takes out exactly `s`.
remove-perm :
    (s : PlanStep) (xs rem : List PlanStep)
    → Distinct rem
    → Permᴰ (s ∷ xs) rem
    → Permᴰ (remove rem s) xs
unfolding remove
remove-perm s xs rem d p =
    let split = Distinct-perm (Permᴰ.symm p) d in
    let kept = keep-perm (λ t. not (t.step_id == s.step_id)) (Permᴰ.symm p) in
    Permᴰ.trans kept (rw (self s.step_id, keep-others s xs split.0) (Permᴰ.refl xs))
  where
    self : (n : ℕ) → (n == n) ≡ true
    self n = ground arith

pub remove_all-perm :
    (wave xs rem : List PlanStep)
    → Distinct rem
    → Permᴰ (wave ++ xs) rem
    → Permᴰ (remove_all rem wave) xs
unfolding remove_all
remove_all-perm [] xs rem d p = Permᴰ.symm p
remove_all-perm (s ∷ wave) xs rem d p =
    let rest = remove-perm s (wave ++ xs) rem d p in
    remove_all-perm wave xs (remove rem s)
      (Distinct-perm (Permᴰ.symm rest) (Distinct-perm (Permᴰ.symm p) d).1) (Permᴰ.symm rest)
