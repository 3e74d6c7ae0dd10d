-- ===== src/Balancing/Partition.antt =====
-- The buckets hold each index once, whichever algorithm fills them.
use mathlib.Core.List.Permᴰ
use helios_net.Prelude.{
  ℕ, zero, suc, ◌≤◌, ◌<◌, ◌≡◌, refl, sym, ap, subst, ◌∙◌, inl, inr, true, false, Option, none, some,
  List, [], ◌∷◌, ◌++◌, append_assoc, append-nil, map, Permᴰ, length, concat, keep, leb, Bool-cases,
  length-keep-le, arith,
}
use helios_net.Prelude.Sort.{sort_by, sort_by-perm}
use helios_net.Balancing.{
  LoadResult, load_at, add_load, push_job, repeat, range_from, enumerate, least_loaded, place,
  is_bucket, heaviest_first, has_no_worker, lpt_result, lpt, brute,
}
use helios_net.Balancing.Spread.{distribute, IsAssignment, length-add_load}
use helios_net.Balancing.Brute.{IsOptimal, brute-IsOptimal, length-repeat}

length-push_job :
    (w i : ℕ) (buckets : List (List ℕ)) → length (push_job w i buckets) ≡ length buckets
length-push_job w i [] = refl
length-push_job zero i (b ∷ buckets) = refl
length-push_job (suc w) i (b ∷ buckets) = ap suc (length-push_job w i buckets)

below_zero : (w : ℕ) → ¬ (w < 0)
below_zero w h = omega arith

concat-push_job :
    (w i : ℕ) (buckets : List (List ℕ))
    → w < length buckets
    → Permᴰ (concat (push_job w i buckets)) (concat buckets ++ i ∷ [])
concat-push_job w i [] h = absurd (below_zero w h)
concat-push_job zero i (b ∷ buckets) h =
    subst (λ l. Permᴰ l ((b ++ concat buckets) ++ i ∷ []))
      (sym (append_assoc b (i ∷ []) (concat buckets)))
      (subst (λ l. Permᴰ (b ++ i ∷ concat buckets) l)
        (sym (append_assoc b (concat buckets) (i ∷ [])))
        (Permᴰ.append_left b (Permᴰ.append_comm (i ∷ []) (concat buckets))))
concat-push_job (suc w) i (b ∷ buckets) h =
    subst (λ l. Permᴰ (b ++ concat (push_job w i buckets)) l)
      (sym (append_assoc b (concat buckets) (i ∷ [])))
      (Permᴰ.append_left b (concat-push_job w i buckets (omega (arith, h))))

-- A job pushed, and the rest behind it
concat-pushed :
    (w i : ℕ) (buckets : List (List ℕ)) (rest result : List ℕ)
    → w < length buckets
    → Permᴰ result (concat (push_job w i buckets) ++ rest)
    → Permᴰ result (concat buckets ++ i ∷ rest)
concat-pushed w i buckets rest result h p = Permᴰ.trans p (
    subst (λ l. Permᴰ (concat (push_job w i buckets) ++ rest) l)
      (append_assoc (concat buckets) (i ∷ []) rest)
      (Permᴰ.append_right rest (concat-push_job w i buckets h)))

distribute-perm :
    (workers : ℕ) (weights ws : List ℕ) (i : ℕ) (buckets : List (List ℕ))
    → length buckets ≡ workers
    → IsAssignment workers weights ws
    → Permᴰ (concat (distribute i buckets ws)) (concat buckets ++ range_from i (length weights))
      × (length (distribute i buckets ws) ≡ workers)
distribute-perm workers [] [] i buckets e a = (
  subst (λ l. Permᴰ (concat buckets) l) (sym (append-nil (concat buckets)))
      (Permᴰ.refl (concat buckets)),
  e,
)
distribute-perm workers [] (w ∷ ws) i buckets e a = absurd a
distribute-perm workers (x ∷ weights) [] i buckets e a = absurd a
distribute-perm workers (x ∷ weights) (w ∷ ws) i buckets e a =
    let (p, l) =
      distribute-perm workers weights ws (suc i) (push_job w i buckets)
        (length-push_job w i buckets ∙ e) a.1 in
    (concat-pushed w i buckets _ _ (omega (arith, a.0, e)) p, l)

pub least_loaded-lt : (l : ℕ) (loads : List ℕ) → least_loaded (l ∷ loads) < suc (length loads)
unfolding least_loaded
least_loaded-lt l [] = omega arith
least_loaded-lt l (m ∷ loads) =
    elim (Bool-cases (leb l (load_at (least_loaded (m ∷ loads)) (m ∷ loads)))) [
      | inl e ↦ rw e (omega arith)
      | inr e ↦ rw e (omega (arith, least_loaded-lt m loads))
    ]

place-perm :
    (indexed : List (ℕ × ℕ)) (buckets : List (List ℕ)) (l : ℕ) (loads : List ℕ)
    → length buckets ≡ suc (length loads)
    → Permᴰ
        (concat (place indexed buckets (l ∷ loads)).0)
        (concat buckets ++ map (λ job. job.0) indexed)
      × (length (place indexed buckets (l ∷ loads)).0 ≡ suc (length loads))
unfolding place
place-perm [] buckets l loads e = (
  subst (λ r. Permᴰ (concat buckets) r) (sym (append-nil (concat buckets)))
      (Permᴰ.refl (concat buckets)),
  e,
)
place-perm ((idx, w) ∷ indexed) buckets l loads e =
    go (least_loaded (l ∷ loads)) (least_loaded-lt l loads)
      (add_load (least_loaded (l ∷ loads)) w (l ∷ loads))
      (length-add_load (least_loaded (l ∷ loads)) w (l ∷ loads)) (place-perm indexed)
  where
    go :
        (i : ℕ)
        → i < suc (length loads)
        → (next : List ℕ) → length next ≡ suc (length loads)
        → ((buckets' : List (List ℕ)) (m : ℕ) (loads' : List ℕ)
            → length buckets' ≡ suc (length loads')
            → Permᴰ
                (concat (place indexed buckets' (m ∷ loads')).0)
                (concat buckets' ++ map (λ job. job.0) indexed)
              × (length (place indexed buckets' (m ∷ loads')).0 ≡ suc (length loads')))
        → Permᴰ
            (concat (place indexed (push_job i idx buckets) next).0)
            (concat buckets ++ idx ∷ map (λ job. job.0) indexed)
          × (length (place indexed (push_job i idx buckets) next).0 ≡ suc (length loads))
    go i h [] k rec = absurd (below_zero 0 (omega (arith, k)))
    go i h (m ∷ next) k rec =
        let (p, q) =
          rec (push_job i idx buckets) m next (length-push_job i idx buckets ∙ e ∙ sym k) in
        (concat-pushed i idx buckets _ _ (omega (arith, h, e)) p, q ∙ k)

enumerate-range :
    (i : ℕ) (weights : List ℕ)
    → map (λ job. job.0) (enumerate i weights) ≡ range_from i (length weights)
enumerate-range i [] = refl
enumerate-range i (x ∷ weights) = ap (λ l. i ∷ l) (enumerate-range (suc i) weights)

pub concat-repeat : (n : ℕ) → concat (repeat {A = List ℕ} n []) ≡ []
concat-repeat zero = refl
concat-repeat (suc n) = concat-repeat n

pub concat-keep :
    {A : Type 0} (buckets : List (List A)) → concat (keep is_bucket buckets) ≡ concat buckets
concat-keep [] = refl
concat-keep ([] ∷ buckets) = concat-keep buckets
concat-keep ((i ∷ b) ∷ buckets) = ap (λ l. (i ∷ b) ++ l) (concat-keep buckets)

-- The buckets, of which there are no more than workers, hold each index once; or there are jobs and
-- no worker.
abbrev pub IsSplit : List ℕ → ℕ → Option LoadResult → Type 0
IsSplit weights workers none = has_no_worker weights workers ≡ true
IsSplit weights workers (some r) =
    Permᴰ (concat r.buckets) (range_from 0 (length weights)) × (length r.buckets ≤ workers)

pub brute-IsSplit :
    (weights : List ℕ) (workers : ℕ) → IsSplit weights workers (brute weights workers)
brute-IsSplit weights workers = result (brute weights workers) (brute-IsOptimal weights workers)
  where
    result : (o : Option LoadResult) → IsOptimal weights workers o → IsSplit weights workers o
    result none h = h
    result (some r) ((ws, a, e, f), least) =
        let (p, l) =
          distribute-perm workers weights ws 0 (repeat workers []) (length-repeat workers []) a in
        (
          subst (λ b. Permᴰ (concat b) (range_from 0 (length weights))) (sym e)
              (subst
                (λ c.
                  Permᴰ (concat (distribute 0 (repeat workers []) ws))
                    (c ++ range_from 0 (length weights)))
                (concat-repeat workers) p),
          omega (arith, ap length e, l),
        )

pub lpt-IsSplit : (weights : List ℕ) (workers : ℕ) → IsSplit weights workers (lpt weights workers)
unfolding lpt
lpt-IsSplit [] zero = unfold heaviest_first sort_by place in (Permᴰ.nil, omega arith)
lpt-IsSplit (x ∷ weights) zero = refl
lpt-IsSplit weights (suc n) = rw (has_worker weights) (
    result (place (heaviest_first weights) (repeat (suc n) []) (repeat (suc n) 0)) (
      place-perm (heaviest_first weights) (repeat (suc n) []) 0 (repeat n 0)
        (omega (arith, length-repeat {A = ℕ} n 0, length-repeat {A = List ℕ} n []))))
  where
    has_worker : (ws : List ℕ) → has_no_worker ws (suc n) ≡ false
    has_worker [] = refl
    has_worker (y ∷ ws) = refl

    order : Permᴰ (map (λ job. job.0) (heaviest_first weights)) (range_from 0 (length weights))
    order =
        unfold heaviest_first in
        subst
          (λ l. Permᴰ (map (λ job. job.0) (sort_by (λ a b. leb b.1 a.1) (enumerate 0 weights))) l)
          (enumerate-range 0 weights)
          (Permᴰ.map (λ job. job.0) (sort_by-perm (λ a b. leb b.1 a.1) (enumerate 0 weights)))

    result :
        (r : List (List ℕ) × List ℕ)
        → (Permᴰ
              (concat r.0)
              (concat (repeat (suc n) []) ++ map (λ job. job.0) (heaviest_first weights))
            × (length r.0 ≡ suc (length (repeat {A = ℕ} n 0))))
        → IsSplit weights (suc n) (some (lpt_result r))
    result r (p, l) = (
      subst (λ c. Permᴰ c (range_from 0 (length weights))) (sym (concat-keep r.0))
          (Permᴰ.trans
            (subst (λ c. Permᴰ (concat r.0) (c ++ map (λ job. job.0) (heaviest_first weights)))
              (concat-repeat n) p)
            order),
      omega (arith, length-keep-le is_bucket r.0, l, length-repeat {A = ℕ} n 0),
    )
