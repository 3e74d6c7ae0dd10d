-- ===== src/Balancing/Samples.antt =====
-- Five jobs on two workers, and each theorem of the distribution at them.
use helios_net.Prelude.{ℕ, ◌≡◌, refl, none, some, List, [], ◌∷◌}
use helios_net.Prelude.Sort.{sort_by}
use helios_net.Prelude.Text.{codes}
use helios_net.Algorithms.{
  get, set, bucket_of, register_algo, or_fallback, named, get_algo, list_algos,
}
use helios_net.Balancing.{least_loaded, place, heaviest_first, lpt, try_workers, dfs, brute}
use helios_net.Balancing.Brute.{IsOptimal, brute-IsOptimal}
use helios_net.Balancing.Lpt.{IsGreedy, lpt-IsGreedy}
use helios_net.Balancing.Batches.{balancing_algos, algo_or_lpt, solve, ScanTask, balanced_batches}
use helios_net.Balancing.Batches.Tasks.{IsBatches, balanced_batches-IsBatches}

abbrev jobs : List ℕ
jobs = 3 ∷ 3 ∷ 2 ∷ 2 ∷ 2 ∷ []

lpt-jobs :
    lpt jobs 2 ≡ some (record { buckets = (0 ∷ 2 ∷ 4 ∷ []) ∷ (1 ∷ 3 ∷ []) ∷ []; makespan = 7 })
unfolding lpt place least_loaded heaviest_first sort_by
lpt-jobs = refl

brute-jobs :
    brute jobs 2 ≡ some (record { buckets = (0 ∷ 1 ∷ []) ∷ (2 ∷ 3 ∷ 4 ∷ []) ∷ []; makespan = 6 })
unfolding brute dfs try_workers
brute-jobs = refl

lpt-no_worker : lpt jobs 0 ≡ none
unfolding lpt
lpt-no_worker = refl

abbrev tasks : List ScanTask
tasks =
    record { name = codes "a"; weight = 1 }
    ∷ record { name = codes "b"; weight = 4 }
    ∷ record { name = codes "c"; weight = 2 }
    ∷ []

-- A name that is not registered falls back to the default.
solve_unknown : solve (codes "none") jobs 2 ≡ lpt jobs 2
unfolding solve algo_or_lpt get_algo balancing_algos register_algo get set bucket_of or_fallback
    named
solve_unknown = refl

-- The list of names shows the key of the default.
list_balancing :
    list_algos balancing_algos (some (codes "balancing"))
    ≡ (codes "balancing", codes "__default__" ∷ codes "brute" ∷ codes "lpt" ∷ []) ∷ []
unfolding list_algos balancing_algos register_algo get set bucket_of sort_by
list_balancing = refl

brute-IsOptimal_example : IsOptimal jobs 2 (brute jobs 2)
brute-IsOptimal_example = brute-IsOptimal jobs 2

lpt-IsGreedy_example : IsGreedy jobs 2 (lpt jobs 2)
lpt-IsGreedy_example = lpt-IsGreedy jobs 2

balanced_batches-IsBatches_example :
    IsBatches tasks 2 (balanced_batches (some (codes "brute")) tasks 2)
balanced_batches-IsBatches_example = balanced_batches-IsBatches (some (codes "brute")) tasks 2
