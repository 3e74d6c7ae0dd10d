-- ===== src/Planner/Schedule/Order.antt =====
-- A step runs after the steps that it depends on.
use mathlib.Core.List.Permᴰ
use helios_net.Prelude.{
  ℕ, zero, suc, ◌≤◌, ◌<◌, ◌≡◌, refl, sym, ap, subst, ◌∙◌, ◌⊎◌, inl, inr, Bool, true, false, Option,
  none, some, List, [], ◌∷◌, ◌++◌, Permᴰ, All, All-take, All-perm, In, All-In, All-of_In, In-perm,
  In-append_right, In-keep, length, keep, all, Bool-cases, arith, ltb, ◌==◌,
}
use helios_net.Prelude.Sort.{sort_by-perm}
use helios_net.Planner.Steps.{PlanStep}
use helios_net.Planner.Plan.{ids}
use helios_net.Planner.Schedule.{
  by_id, lowest, candidates, is_done, is_ready, le_priority, next_wave, remove_all, mark_done,
  schedule_loop, schedule,
}
use helios_net.Planner.Schedule.Remaining.{Distinct, Distinct-perm}
use helios_net.Planner.Schedule.Rounds.{next_wave-perm}
use helios_net.Planner.Schedule.Total.{by_id-Distinct, Distinct-append_right}

-- Every dependency of every step of a wave is done when the wave starts.
abbrev pub InOrder : List ℕ → List (List PlanStep) → Type 0
InOrder done [] = Unit
InOrder done (wave ∷ waves) =
    All (λ s. All (λ d. In d done) s.depends_on) wave × InOrder (mark_done done wave) waves

-- A step depends only on steps of the list, and those have lower ids.
abbrev pub DependsBelow : List PlanStep → Type 0
DependsBelow steps = All (λ s. All (λ d. (d < s.step_id) × In d (ids steps)) s.depends_on) steps

-- The same while some steps are done.
abbrev IsOpen : List ℕ → List PlanStep → Type 0
IsOpen done rem =
    All (λ s. All (λ d. (d < s.step_id) × (In d done ⊎ In d (ids rem))) s.depends_on) rem

is_done→In : (done : List ℕ) (d : ℕ) → is_done done d ≡ true → In d done
is_done→In [] d h = cc
is_done→In (e ∷ done) d h = elim (Bool-cases (e == d)) [
  | inl p ↦ inl (ground arith)
  | inr p ↦ inr (is_done→In done d (rw p at h))
]

In→is_done : (done : List ℕ) (d : ℕ) → In d done → is_done done d ≡ true
In→is_done [] d i = absurd i
In→is_done (e ∷ done) d (inl p) = ground arith
In→is_done (e ∷ done) d (inr i) = ground (arith, In→is_done done d i)

ready→All : (done ds : List ℕ) → all (is_done done) ds ≡ true → All (λ d. In d done) ds
ready→All done [] h = tt
ready→All done (d ∷ ds) h = (is_done→In done d (ground arith), ready→All done ds (ground arith))

All→ready : (done ds : List ℕ) → All (λ d. In d done) ds → all (is_done done) ds ≡ true
All→ready done [] h = refl
All→ready done (d ∷ ds) h = ground (arith, In→is_done done d h.0, All→ready done ds h.1)

lowest-cons_lt :
    (s t : PlanStep) (ts : List PlanStep)
    → ltb t.step_id s.step_id ≡ true
    → lowest s (t ∷ ts) ≡ lowest t ts
unfolding lowest
lowest-cons_lt s t ts e = rw (e, lowest)

lowest-cons_le :
    (s t : PlanStep) (ts : List PlanStep)
    → ltb t.step_id s.step_id ≡ false
    → lowest s (t ∷ ts) ≡ lowest s ts
unfolding lowest
lowest-cons_le s t ts e = rw (e, lowest)

-- `lowest` is one of the steps, and no step has a lower id.
lowest-In : (s : PlanStep) (rest : List PlanStep) → In (lowest s rest) (s ∷ rest)
lowest-In s [] = inl (unfold lowest in refl)
lowest-In s (t ∷ ts) = elim (Bool-cases (ltb t.step_id s.step_id)) [
  | inl e ↦ subst (λ u. In u (s ∷ t ∷ ts)) (sym (lowest-cons_lt s t ts e)) (inr (lowest-In t ts))
  | inr e ↦
      subst (λ u. In u (s ∷ t ∷ ts)) (sym (lowest-cons_le s t ts e))
        (skip (lowest s ts) (lowest-In s ts))
]
  where
    skip : (x : PlanStep) → In x (s ∷ ts) → In x (s ∷ t ∷ ts)
    skip x (inl e) = inl e
    skip x (inr i) = inr (inr i)

lowest-le :
    (s : PlanStep) (rest : List PlanStep)
    → All (λ t. (lowest s rest).step_id ≤ t.step_id) (s ∷ rest)
lowest-le s [] = (unfold lowest in omega arith, tt)
lowest-le s (t ∷ ts) = elim (Bool-cases (ltb t.step_id s.step_id)) [
  | inl e ↦
      let h = lowest-le t ts in
      subst (λ (u : PlanStep). All (λ v. u.step_id ≤ v.step_id) (s ∷ t ∷ ts))
        (sym (lowest-cons_lt s t ts e)) (ground (arith, h.0), h)
  | inr e ↦
      let h = lowest-le s ts in
      subst (λ (u : PlanStep). All (λ v. u.step_id ≤ v.step_id) (s ∷ t ∷ ts))
        (sym (lowest-cons_le s t ts e)) (h.0, (ground (arith, h.0), h.1))
]

In-ids : (d : ℕ) (xs : List PlanStep) → In d (ids xs) → (t : PlanStep) × In t xs × (d ≡ t.step_id)
In-ids d [] i = absurd i
In-ids d (x ∷ xs) (inl e) = (x, inl refl, e)
In-ids d (x ∷ xs) (inr i) = let (t, j, e) = In-ids d xs i in (t, inr j, e)

-- Where dependencies point below, some remaining step is ready.
lowest_ready :
    (done : List ℕ) (s : PlanStep) (rest : List PlanStep)
    → IsOpen done (s ∷ rest)
    → is_ready done (lowest s rest) ≡ true
lowest_ready done s rest o =
    let m = lowest s rest in
    let ds =
      All-In (λ t. All (λ d. (d < t.step_id) × (In d done ⊎ In d (ids (s ∷ rest)))) t.depends_on) m
        (s ∷ rest) o (lowest-In s rest) in
    All→ready done m.depends_on (
      All-of_In (λ d. In d done) m.depends_on
        (λ d i. here d (
          All-In (λ d. (d < m.step_id) × (In d done ⊎ In d (ids (s ∷ rest)))) d m.depends_on ds i)))
  where
    here : (d : ℕ) → (d < (lowest s rest).step_id) × (In d done ⊎ In d (ids (s ∷ rest))) → In d done
    here d (lt, inl i) = i
    here d (lt, inr i) =
        let (t, j, e) = In-ids d (s ∷ rest) i in
        let le =
          All-In (λ u. (lowest s rest).step_id ≤ u.step_id) t (s ∷ rest) (lowest-le s rest) j in
        absurd (omega arith)

In-keep_intro :
    (p : PlanStep → Bool) (x : PlanStep) (xs : List PlanStep)
    → In x xs
    → p x ≡ true
    → In x (keep p xs)
In-keep_intro p x [] i h = absurd i
In-keep_intro p x (y ∷ ys) (inl e) h = rw (sym (ap p e) ∙ h) (inl e)
In-keep_intro p x (y ∷ ys) (inr i) h = elim (Bool-cases (p y)) [
  | inl e ↦ rw e (inr (In-keep_intro p x ys i h))
  | inr e ↦ rw e (In-keep_intro p x ys i h)
]

-- So the deadlock is never broken: each candidate is ready.
candidates-ready :
    (done : List ℕ) (s : PlanStep) (rest : List PlanStep)
    → IsOpen done (s ∷ rest)
    → All (λ t. All (λ d. In d done) t.depends_on) (candidates done s rest)
unfolding candidates
candidates-ready done s rest o =
    from (keep (is_ready done) (s ∷ rest))
      (In-keep_intro (is_ready done) (lowest s rest) (s ∷ rest) (lowest-In s rest)
        (lowest_ready done s rest o))
      (All-of_In (λ t. All (λ d. In d done) t.depends_on) (keep (is_ready done) (s ∷ rest))
        (λ t i. ready→All done t.depends_on (In-keep t (is_ready done) (s ∷ rest) i).1))
  where
    from :
        (c : List PlanStep)
        → In (lowest s rest) c
        → All (λ t. All (λ d. In d done) t.depends_on) c
        → All
            (λ t. All (λ d. In d done) t.depends_on)
            (elim c [ [] ↦ lowest s rest ∷ [] | t ∷ ts ↦ t ∷ ts ])
    from [] i a = absurd i
    from (c ∷ cs) i a = a

next_wave-ready :
    (m : ℕ) (done : List ℕ) (s : PlanStep) (rest : List PlanStep)
    → IsOpen done (s ∷ rest)
    → All (λ t. All (λ d. In d done) t.depends_on) (next_wave m done s rest)
unfolding next_wave
next_wave-ready m done s rest o =
    let ready = λ (t : PlanStep). All (λ d. In d done) t.depends_on in
    All-take ready m _ (
      All-perm ready (Permᴰ.symm (sort_by-perm le_priority (candidates done s rest)))
        (candidates-ready done s rest o))

In-mark_done :
    (d : ℕ) (done : List ℕ) (wave : List PlanStep) → In d done → In d (mark_done done wave)
unfolding mark_done
In-mark_done d done [] i = i
In-mark_done d done (s ∷ wave) i = In-mark_done d (s.step_id ∷ done) wave (inr i)

ids-In-mark_done :
    (d : ℕ) (done : List ℕ) (wave : List PlanStep) → In d (ids wave) → In d (mark_done done wave)
unfolding mark_done
ids-In-mark_done d done [] i = absurd i
ids-In-mark_done d done (s ∷ wave) (inl e) = In-mark_done d (s.step_id ∷ done) wave (inl e)
ids-In-mark_done d done (s ∷ wave) (inr i) = ids-In-mark_done d (s.step_id ∷ done) wave i

ids-append : (d : ℕ) (xs ys : List PlanStep) → In d (ids (xs ++ ys)) → In d (ids xs) ⊎ In d (ids ys)
ids-append d [] ys i = inr i
ids-append d (x ∷ xs) ys (inl e) = inl (inl e)
ids-append d (x ∷ xs) ys (inr i) = elim (ids-append d xs ys i) [
  | inl a ↦ inl (inr a)
  | inr b ↦ inr b
]

-- What is left after a wave still depends only on what is done or left.
IsOpen-after :
    (done : List ℕ) (wave left rem : List PlanStep)
    → Permᴰ (wave ++ left) rem
    → IsOpen done rem
    → IsOpen (mark_done done wave) left
IsOpen-after done wave left rem p o = All-of_In Open left λ s i.
    All-of_In (λ d. (d < s.step_id) × (In d (mark_done done wave) ⊎ In d (ids left))) s.depends_on
      λ d j.
        let (lt, at) =
          All-In (λ d. (d < s.step_id) × (In d done ⊎ In d (ids rem))) d s.depends_on
            (All-In Before s rem o (In-perm s p (In-append_right s wave left i))) j in
        (lt, moved d at)
  where
    Open : PlanStep → Type 0
    Open s =
        All (λ d. (d < s.step_id) × (In d (mark_done done wave) ⊎ In d (ids left))) s.depends_on

    Before : PlanStep → Type 0
    Before s = All (λ d. (d < s.step_id) × (In d done ⊎ In d (ids rem))) s.depends_on

    moved : (d : ℕ) → In d done ⊎ In d (ids rem) → In d (mark_done done wave) ⊎ In d (ids left)
    moved d (inl i) = inl (In-mark_done d done wave i)
    moved d (inr i) =
        elim (ids-append d wave left
          (In-perm d (Permᴰ.map (λ (s : PlanStep). s.step_id) (Permᴰ.symm p)) i)) [
            | inl a ↦ inl (ids-In-mark_done d done wave a)
            | inr b ↦ inr b
          ]

schedule_loop-some :
    (m fuel : ℕ) (done : List ℕ) (s : PlanStep) (rest : List PlanStep)
    (waves : List (List PlanStep))
    → schedule_loop m (suc fuel) done (s ∷ rest) ≡ some waves
    → (later : List (List PlanStep)) × (schedule_loop m fuel
          (mark_done done (next_wave m done s rest))
          (remove_all (s ∷ rest) (next_wave m done s rest))
        ≡ some later)
      × (waves ≡ next_wave m done s rest ∷ later)
unfolding schedule_loop
schedule_loop-some m fuel done s rest waves h =
    from
      (schedule_loop m fuel (mark_done done (next_wave m done s rest))
        (remove_all (s ∷ rest) (next_wave m done s rest)))
      h
  where
    from :
        (r : Option (List (List PlanStep)))
        → (elim r [ none ↦ none | some ws ↦ some (next_wave m done s rest ∷ ws) ]) ≡ some waves
        → (later : List (List PlanStep)) × (r ≡ some later)
          × (waves ≡ next_wave m done s rest ∷ later)
    from none e = cc
    from (some ws) e = (ws, refl, cc)

schedule_loop-InOrder :
    (m fuel : ℕ) (done : List ℕ) (rem : List PlanStep) (waves : List (List PlanStep))
    → Distinct rem
    → IsOpen done rem
    → schedule_loop m fuel done rem ≡ some waves
    → InOrder done waves
schedule_loop-InOrder m fuel done [] waves d o h =
    let e : some [] ≡ some waves = unfold schedule_loop in h in
    let e' : [] ≡ waves = cc in subst (InOrder done) e' tt
schedule_loop-InOrder m zero done (s ∷ rest) waves d o h = unfold schedule_loop in cc
schedule_loop-InOrder m (suc fuel) done (s ∷ rest) waves d o h =
    let wave = next_wave m done s rest in
    let left = remove_all (s ∷ rest) wave in
    let whole = next_wave-perm m done s rest d in
    let (later, e, split) = schedule_loop-some m fuel done s rest waves h in
    rw split (
      next_wave-ready m done s rest o,
      schedule_loop-InOrder m fuel (mark_done done wave) left later
          (Distinct-append_right wave left (Distinct-perm (Permᴰ.symm whole) d))
          (IsOpen-after done wave left (s ∷ rest) whole o) e,
    )

-- Where every step depends only on steps of the list with lower ids, each step of the schedule
-- stands in a wave after those of all its dependencies.
pub schedule-InOrder :
    (m : ℕ) (steps : List PlanStep) (waves : List (List PlanStep))
    → Distinct steps
    → DependsBelow steps
    → schedule m steps ≡ some waves
    → InOrder [] waves
unfolding schedule
schedule-InOrder m steps waves d below h =
    let e = by_id-Distinct steps d in
    schedule_loop-InOrder m (length (by_id steps)) [] (by_id steps) waves (rw e d)
      (rw e (
        All-of_In (λ s. All (λ d. (d < s.step_id) × (In d [] ⊎ In d (ids steps))) s.depends_on)
          steps
          (λ s i.
            All-of_In (λ d. (d < s.step_id) × (In d [] ⊎ In d (ids steps))) s.depends_on
              (λ n j.
                let (lt, at) =
                  All-In (λ d. (d < s.step_id) × In d (ids steps)) n s.depends_on
                    (All-In (λ s. All (λ d. (d < s.step_id) × In d (ids steps)) s.depends_on) s
                      steps below i)
                    j in
                (lt, inr at)))))
      h
