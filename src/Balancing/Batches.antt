-- ===== src/Balancing/Batches.antt =====
-- `solve` of engine/algorithms/balancing.py, and `balanced_batches` of engine/scanner.py, which asks it.
pub mod Tasks
use helios_net.Prelude.{
  ℕ, zero, suc, Bool, true, false, ◌⊎◌, inl, inr, if◌then◌else◌, leb, Option, none, some, List, [],
  ◌∷◌, map, keep, length,
}
use helios_net.Prelude.Sort.{sort_by}
use helios_net.Prelude.Text.{Text, codes}
use helios_net.Algorithms.{Dict, AlgorithmError, register_algo, get_algo}
use helios_net.Balancing.{
  LoadResult, load_at, add_load, push_job, repeat, range_from, least_loaded, place, is_bucket,
  has_no_worker, lpt, brute,
}

abbrev pub Algo : Type 0
Algo = List ℕ → ℕ → Option LoadResult

-- What the module registers
unfoldable pub balancing_algos : Dict (Dict Algo)
unfolding register_algo
balancing_algos =
    register_algo (register_algo [] (codes "balancing") (codes "lpt") lpt true) (codes "balancing")
      (codes "brute") brute false

-- The `except` of `solve`
unfoldable pub algo_or_lpt : AlgorithmError ⊎ Algo → Algo
algo_or_lpt (inl err) = lpt
algo_or_lpt (inr algo) = algo

unfoldable pub solve : Text → List ℕ → ℕ → Option LoadResult
unfolding get_algo algo_or_lpt balancing_algos
solve kind [] workers = some (record { buckets = repeat workers []; makespan = 0 })
solve kind (x ∷ weights) workers =
    algo_or_lpt (get_algo balancing_algos (codes "balancing") (some kind)) (x ∷ weights) workers

-- `ScanTask`, of which the distribution reads the weight
pub record ScanTask : Type 0 where
  pub name : Text
  pub weight : ℕ

-- `tasks[i]`; `none` is an `IndexError`.
unfoldable pub task_at : ℕ → List ScanTask → Option ScanTask
task_at i [] = none
task_at zero (t ∷ tasks) = some t
task_at (suc i) (t ∷ tasks) = task_at i tasks

unfoldable pub cons_some : {A : Type 0} → Option A → Option (List A) → Option (List A)
cons_some (some x) (some xs) = some (x ∷ xs)
cons_some _ _ = none

-- `[tasks[i] for i in b]`
unfoldable pub tasks_at : List ScanTask → List ℕ → Option (List ScanTask)
unfolding task_at cons_some
tasks_at tasks [] = some []
tasks_at tasks (i ∷ b) = cons_some (task_at i tasks) (tasks_at tasks b)

unfoldable pub mapped : List ScanTask → List (List ℕ) → Option (List (List ScanTask))
unfolding tasks_at cons_some
mapped tasks [] = some []
mapped tasks (b ∷ buckets) = cons_some (tasks_at tasks b) (mapped tasks buckets)

-- `_lpt_idx`
unfoldable pub lpt_idx : List ℕ → ℕ → Option (List (List ℕ))
unfolding sort_by place
lpt_idx weights workers =
    if has_no_worker weights workers
    then none
    else some (
        keep is_bucket
          (place
            (map (λ i. (i, load_at i weights))
              (sort_by (λ i j. leb (load_at j weights) (load_at i weights))
                (range_from 0 (length weights))))
            (repeat workers []) (repeat workers 0)).0)

-- The `try` around the gateway
unfoldable pub buckets_or_lpt : List ℕ → ℕ → Option LoadResult → Option (List (List ℕ))
unfolding lpt_idx
buckets_or_lpt weights workers none = lpt_idx weights workers
buckets_or_lpt weights workers (some result) = some result.buckets

-- `self.balancing_algo or "lpt"`
unfoldable pub kind_of : Option Text → Text
kind_of none = codes "lpt"
kind_of (some []) = codes "lpt"
kind_of (some (c ∷ kind)) = c ∷ kind

-- `[g for g in mapped if g]`
unfoldable pub full_groups : Option (List (List ScanTask)) → Option (List (List ScanTask))
full_groups none = none
full_groups (some groups) = some (keep is_bucket groups)

unfoldable pub mapped_groups :
    List ScanTask → Option (List (List ℕ)) → Option (List (List ScanTask))
unfolding mapped full_groups
mapped_groups tasks none = none
mapped_groups tasks (some idx_buckets) = full_groups (mapped tasks idx_buckets)

-- `balanced_batches`; `none` is an exception.
unfoldable pub balanced_batches : Option Text → List ScanTask → ℕ → Option (List (List ScanTask))
unfolding solve kind_of buckets_or_lpt mapped_groups
balanced_batches balancing_algo tasks max_workers =
    let weights = map (λ t. t.weight) tasks in
    mapped_groups tasks
      (buckets_or_lpt weights max_workers (solve (kind_of balancing_algo) weights max_workers))
