-- ===== src/Balancing.antt =====
-- engine/algorithms/balancing.py, and the registry of engine/algorithms/__init__.py that it is called
-- through. A weight is a natural number, such as a duration in a fixed unit, so that sums are exact.
pub mod Spread
pub mod Search
pub mod Brute
pub mod Loads
pub mod Placed
pub mod Lpt
pub mod Partition
pub mod Batches
pub mod Samples
use Prim.Native.Nat.{max}
use helios_net.Prelude.{
  ℕ, zero, suc, ◌+◌, Bool, true, false, not, if◌then◌else◌, ltb, leb, ◌==◌, Option, none, some,
  List, [], ◌∷◌, ◌++◌, any, keep, length,
}
use helios_net.Prelude.Sort.{sort_by}

pub record LoadResult : Type 0 where
  pub buckets : List (List ℕ)
  pub makespan : ℕ

-- `max(loads) if loads else 0.0`
abbrev pub max_load : List ℕ → ℕ
max_load [] = 0
max_load (l ∷ loads) = max l (max_load loads)

-- `loads[w]`
abbrev pub load_at : ℕ → List ℕ → ℕ
load_at w [] = 0
load_at zero (l ∷ loads) = l
load_at (suc w) (l ∷ loads) = load_at w loads

-- `loads[w] += x`
abbrev pub add_load : ℕ → ℕ → List ℕ → List ℕ
add_load w x [] = []
add_load zero x (l ∷ loads) = (l + x) ∷ loads
add_load (suc w) x (l ∷ loads) = l ∷ add_load w x loads

-- `buckets[w].append(i)`
abbrev pub push_job : ℕ → ℕ → List (List ℕ) → List (List ℕ)
push_job w i [] = []
push_job zero i (b ∷ buckets) = (b ++ i ∷ []) ∷ buckets
push_job (suc w) i (b ∷ buckets) = b ∷ push_job w i buckets

abbrev pub repeat {ℓ} : {A : Type ℓ} → ℕ → A → List A
repeat zero a = []
repeat (suc n) a = a ∷ repeat n a

-- `range(start, start + n)`
abbrev pub range_from : ℕ → ℕ → List ℕ
range_from start zero = []
range_from start (suc n) = start ∷ range_from (suc start) n

-- `list(enumerate(weights))`, from an index on
abbrev pub enumerate : ℕ → List ℕ → List (ℕ × ℕ)
enumerate i [] = []
enumerate i (x ∷ weights) = (i, x) ∷ enumerate (suc i) weights

-- `min(range(workers), key=lambda k: loads[k])`, the first worker with the least load
unfoldable pub least_loaded : List ℕ → ℕ
least_loaded [] = 0
least_loaded (l ∷ []) = 0
least_loaded (l ∷ m ∷ loads) =
    let i = least_loaded (m ∷ loads) in if leb l (load_at i (m ∷ loads)) then 0 else suc i

-- The loop of `_lpt`
unfoldable pub place : List (ℕ × ℕ) → List (List ℕ) → List ℕ → List (List ℕ) × List ℕ
unfolding least_loaded
place [] buckets loads = (buckets, loads)
place ((idx, w) ∷ indexed) buckets loads =
    let i = least_loaded loads in place indexed (push_job i idx buckets) (add_load i w loads)

abbrev pub is_bucket {ℓ} : {A : Type ℓ} → List A → Bool
is_bucket [] = false
is_bucket (i ∷ b) = true

abbrev pub lpt_result : List (List ℕ) × List ℕ → LoadResult
lpt_result (buckets, loads) = record { buckets = keep is_bucket buckets; makespan = max_load loads }

-- Jobs with no worker: `min` and `max` of nothing raise `ValueError`.
abbrev pub has_no_worker : List ℕ → ℕ → Bool
has_no_worker (x ∷ weights) zero = true
has_no_worker _ _ = false

-- `sorted(enumerate(weights), key=lambda x: x[1], reverse=True)`, which keeps the order of equal ones
unfoldable pub heaviest_first : List ℕ → List (ℕ × ℕ)
unfolding sort_by
heaviest_first weights = sort_by (λ a b. leb b.1 a.1) (enumerate 0 weights)

-- `_lpt`; `none` is the `ValueError`.
unfoldable pub lpt : List ℕ → ℕ → Option LoadResult
unfolding place heaviest_first
lpt weights workers =
    if has_no_worker weights workers
    then none
    else some (lpt_result (place (heaviest_first weights) (repeat workers []) (repeat workers 0)))

-- `best`; `none` is `(None, inf)`.
abbrev pub Best : Type 0
Best = Option LoadResult

-- `mk < best[1]`
abbrev pub beats : ℕ → Best → Bool
beats mk none = true
beats mk (some b) = ltb mk b.makespan

-- The loop of `dfs` over the workers, `next` being its call for the next job. What it adds to
-- `buckets` and `loads` for that call it takes back behind it.
unfoldable pub try_workers :
    (List (List ℕ) → List ℕ → Best → Best)
    → ℕ
    → ℕ
    → List (List ℕ)
    → List ℕ
    → List ℕ
    → List ℕ
    → Best
    → Best
try_workers next i x buckets loads [] seen best = best
try_workers next i x buckets loads (w ∷ ws) seen best =
    let known = any (λ l. l == load_at w loads) seen in
    try_workers next i x buckets loads ws (if known then seen else load_at w loads ∷ seen)
      (if known then best else next (push_job w i buckets) (add_load w x loads) best)

-- `dfs` on the weights from index `i` on
unfoldable pub dfs : ℕ → ℕ → List ℕ → List (List ℕ) → List ℕ → Best → Best
unfolding try_workers
dfs workers i [] buckets loads best =
    let mk = max_load loads in
    if beats mk best then some (record { buckets = buckets; makespan = mk }) else best
dfs workers i (x ∷ weights) buckets loads best =
    let tried =
      try_workers (dfs workers (suc i) weights) i x buckets loads (range_from 0 workers) [] best in
    if beats (max_load loads) best then tried else best

abbrev pub or_lpt : List ℕ → ℕ → Best → Option LoadResult
or_lpt weights workers none = lpt weights workers
or_lpt weights workers (some b) = some b

-- `_brute`
unfoldable pub brute : List ℕ → ℕ → Option LoadResult
unfolding dfs
brute weights workers =
    if has_no_worker weights workers
    then none
    else or_lpt weights workers (dfs workers 0 weights (repeat workers []) (repeat workers 0) none)
