-- ===== src/Balancing/Batches/Tasks.antt =====
-- Each task stands in one batch.
use mathlib.Core.List.Permᴰ
use helios_net.Prelude.{
  ℕ, zero, suc, ◌+◌, ◌≤◌, ◌<◌, ◌≡◌, refl, sym, ap, subst, ◌∙◌, ◌⊎◌, inl, inr, true, Option, none,
  some, List, [], ◌∷◌, ◌++◌, map, Permᴰ, length, concat, keep, All, All-append_left,
  All-append_right, All-perm, Bool-cases, length-keep-le, arith,
}
use helios_net.Prelude.Text.{Text, codes, eqb_text}
use helios_net.Algorithms.{
  get, set, bucket_of, register_algo, or_first, or_fallback, named, get_algo,
}
use helios_net.Balancing.{LoadResult, range_from, is_bucket, has_no_worker, lpt, brute}
use helios_net.Balancing.Brute.{length-repeat}
use helios_net.Balancing.Partition.{IsSplit, lpt-IsSplit, brute-IsSplit, concat-keep, concat-repeat}
use helios_net.Balancing.Batches.{
  balancing_algos, algo_or_lpt, solve, ScanTask, task_at, cons_some, tasks_at, mapped, lpt_idx,
  buckets_or_lpt, kind_of, full_groups, mapped_groups, balanced_batches,
}

-- Every name finds one of the two algorithms.
algo_of-cases :
    (kind : Text)
    → (algo_or_lpt (get_algo balancing_algos (codes "balancing") (some kind)) ≡ lpt)
      ⊎ (algo_or_lpt (get_algo balancing_algos (codes "balancing") (some kind)) ≡ brute)
unfolding algo_or_lpt get_algo balancing_algos register_algo get set bucket_of or_fallback or_first
    named
algo_of-cases [] = inl refl
algo_of-cases (c ∷ kind) = elim (Bool-cases (eqb_text (c ∷ kind) (codes "lpt"))) [
  | inl e ↦ rw e (inl refl)
  | inr e ↦ elim (Bool-cases (eqb_text (c ∷ kind) (codes "__default__"))) [
    | inl f ↦ rw (e, f) (inl refl)
    | inr f ↦ elim (Bool-cases (eqb_text (c ∷ kind) (codes "brute"))) [
      | inl g ↦ rw (e, f, g) (inr refl)
      | inr g ↦ rw (e, f, g) (inl refl)
    ]
  ]
]

solve-IsSplit :
    (kind : Text) (weights : List ℕ) (workers : ℕ)
    → IsSplit weights workers (solve kind weights workers)
unfolding solve
solve-IsSplit kind [] workers = (
  subst (λ c. Permᴰ c []) (sym (concat-repeat workers)) Permᴰ.nil,
  omega (arith, length-repeat {A = List ℕ} workers []),
)
solve-IsSplit kind (x ∷ weights) workers = elim (algo_of-cases kind) [
  | inl e ↦
      subst (λ algo. IsSplit (x ∷ weights) workers (algo (x ∷ weights) workers)) (sym e)
        (lpt-IsSplit (x ∷ weights) workers)
  | inr e ↦
      subst (λ algo. IsSplit (x ∷ weights) workers (algo (x ∷ weights) workers)) (sym e)
        (brute-IsSplit (x ∷ weights) workers)
]

-- `tasks[i]`, with a task for what is out of range
at : ScanTask → List ScanTask → ℕ → ScanTask
at d [] i = d
at d (t ∷ tasks) zero = t
at d (t ∷ tasks) (suc i) = at d tasks i

abbrev any_task : ScanTask
any_task = record { name = []; weight = 0 }

module _ (d : ScanTask) where
  task_at-some :
      (i : ℕ) (tasks : List ScanTask) → i < length tasks → task_at i tasks ≡ some (at d tasks i)
  unfolding task_at at
  task_at-some i [] h = absurd (clash h)
    where
      clash : ¬ (i < 0)
      clash k = omega (arith, k)
  task_at-some zero (t ∷ tasks) h = refl
  task_at-some (suc i) (t ∷ tasks) h = task_at-some i tasks (omega (arith, h))

  tasks_at-some :
      (tasks : List ScanTask) (b : List ℕ)
      → All (λ i. i < length tasks) b
      → tasks_at tasks b ≡ some (map (at d tasks) b)
  unfolding tasks_at
  tasks_at-some tasks [] h = refl
  tasks_at-some tasks (i ∷ b) h =
      rw (task_at-some i tasks h.0, tasks_at-some tasks b h.1) (unfold cons_some in refl)

  mapped-some :
      (tasks : List ScanTask) (buckets : List (List ℕ))
      → All (λ i. i < length tasks) (concat buckets)
      → mapped tasks buckets ≡ some (map (map (at d tasks)) buckets)
  unfolding mapped
  mapped-some tasks [] h = refl
  mapped-some tasks (b ∷ buckets) h =
      rw
        (
          tasks_at-some tasks b (All-append_left (λ i. i < length tasks) b (concat buckets) h),
          mapped-some tasks buckets (All-append_right (λ i. i < length tasks) b (concat buckets) h),
        )
        (unfold cons_some in refl)

  map-at-suc :
      (t : ScanTask) (tasks : List ScanTask) (i n : ℕ)
      → map (at d (t ∷ tasks)) (range_from (suc i) n) ≡ map (at d tasks) (range_from i n)
  unfolding at
  map-at-suc t tasks i zero = refl
  map-at-suc t tasks i (suc n) = ap (λ l. at d tasks i ∷ l) (map-at-suc t tasks (suc i) n)

  map-at_range : (tasks : List ScanTask) → map (at d tasks) (range_from 0 (length tasks)) ≡ tasks
  unfolding at
  map-at_range [] = refl
  map-at_range (t ∷ tasks) =
      ap (λ l. t ∷ l) (map-at-suc t tasks 0 (length tasks) ∙ map-at_range tasks)

map-append : {A B : Type 0} (f : A → B) (xs ys : List A) → map f (xs ++ ys) ≡ map f xs ++ map f ys
map-append f [] ys = refl
map-append f (x ∷ xs) ys = ap (λ l. f x ∷ l) (map-append f xs ys)

concat-map-map :
    {A B : Type 0} (f : A → B) (xs : List (List A)) → concat (map (map f) xs) ≡ map f (concat xs)
concat-map-map f [] = refl
concat-map-map f (x ∷ xs) =
    ap (λ l. map f x ++ l) (concat-map-map f xs) ∙ sym (map-append f x (concat xs))

length-map : {A B : Type 0} (f : A → B) (xs : List A) → length (map f xs) ≡ length xs
length-map f [] = refl
length-map f (x ∷ xs) = ap suc (length-map f xs)

range_from-All : (start n m : ℕ) → start + n ≤ m → All (λ i. i < m) (range_from start n)
range_from-All start zero m h = tt
range_from-All start (suc n) m h =
    (omega (arith, h), range_from-All (suc start) n m (omega (arith, h)))

keep-full :
    {A : Type 0} (groups : List (List A)) → All (λ g. is_bucket g ≡ true) (keep is_bucket groups)
keep-full [] = tt
keep-full ([] ∷ groups) = keep-full groups
keep-full ((x ∷ g) ∷ groups) = (refl, keep-full groups)

-- The batches hold each task once, none is empty, and there are no more than workers; an exception is
-- raised only where there are tasks and no worker.
abbrev pub IsBatches : List ScanTask → ℕ → Option (List (List ScanTask)) → Type 0
IsBatches tasks workers none = has_no_worker (map (λ t. t.weight) tasks) workers ≡ true
IsBatches tasks workers (some batches) =
    Permᴰ (concat batches) tasks
    × All (λ batch. is_bucket batch ≡ true) batches
    × (length batches ≤ workers)

-- Whichever algorithm is asked for, the batches hold each task once, none of them is empty and there
-- are no more of them than workers; an exception is raised only where there are tasks and no worker.
pub balanced_batches-IsBatches :
    (balancing_algo : Option Text) (tasks : List ScanTask) (max_workers : ℕ)
    → IsBatches tasks max_workers (balanced_batches balancing_algo tasks max_workers)
unfolding balanced_batches
balanced_batches-IsBatches balancing_algo tasks max_workers =
    let weights = map (λ t. t.weight) tasks in
    result (solve (kind_of balancing_algo) weights max_workers)
      (solve-IsSplit (kind_of balancing_algo) weights max_workers)
  where
    -- What is left of the groups
    kept :
        (groups : List (List ScanTask))
        → Permᴰ (concat groups) tasks
        → length groups ≤ max_workers
        → IsBatches tasks max_workers (some (keep is_bucket groups))
    kept groups p l = (
      subst (λ c. Permᴰ c tasks) (sym (concat-keep groups)) p,
      keep-full groups,
      omega (arith, length-keep-le is_bucket groups, l),
    )

    grouped :
        (buckets : List (List ℕ))
        → Permᴰ (concat buckets) (range_from 0 (length tasks))
        → length buckets ≤ max_workers
        → IsBatches tasks max_workers (mapped_groups tasks (some buckets))
    grouped buckets p l =
        unfold mapped_groups in
        subst (λ groups. IsBatches tasks max_workers (full_groups groups))
          (sym (
            mapped-some any_task tasks buckets (
              All-perm (λ i. i < length tasks) (Permᴰ.symm p)
                (range_from-All 0 (length tasks) (length tasks) (omega arith)))))
          (unfold full_groups in
            kept (map (map (at any_task tasks)) buckets)
              (subst (λ c. Permᴰ c tasks) (sym (concat-map-map (at any_task tasks) buckets))
                (subst (λ c. Permᴰ (map (at any_task tasks) (concat buckets)) c)
                  (map-at_range any_task tasks) (Permᴰ.map (at any_task tasks) p)))
              (omega (arith, l, length-map (map (at any_task tasks)) buckets)))

    result :
        (o : Option LoadResult)
        → IsSplit (map (λ t. t.weight) tasks) max_workers o
        → IsBatches tasks max_workers
            (mapped_groups tasks (buckets_or_lpt (map (λ t. t.weight) tasks) max_workers o))
    result none h = unfold buckets_or_lpt lpt_idx in rw h (unfold mapped_groups in h)
    result (some r) (p, l) =
        unfold buckets_or_lpt in
        grouped r.buckets
          (subst (λ n. Permᴰ (concat r.buckets) (range_from 0 n)) (length-map (λ t. t.weight) tasks)
            p)
          l
