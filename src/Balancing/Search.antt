-- ===== src/Balancing/Search.antt =====
-- What the loop over the workers adds to the search, given what its calls for the next job add.
use helios_net.Prelude.{
  ℕ, suc, ◌≤◌, ◌<◌, ◌≡◌, refl, sym, subst, ◌∙◌, ◌⊎◌, inl, inr, Bool, true, false, if◌then◌else◌,
  ◌==◌, ==_iff, none, some, List, [], ◌∷◌, Permᴰ, length, any, In, any→In, All, arith,
}
use mathlib.Core.List.Permᴰ
use helios_net.Balancing.{max_load, load_at, add_load, push_job, Best, beats, try_workers}
use helios_net.Balancing.Spread.{
  spread, distribute, IsAssignment, length-add_load, max_load-perm, spread-perm, add_load-same,
}

abbrev pub AtMost : Best → ℕ → Type 0
AtMost none m = ⊥
AtMost (some b) m = b.makespan ≤ m

-- The second is as good as the first.
abbrev pub IsAsGood : Best → Best → Type 0
IsAsGood best found = (m : ℕ) → AtMost best m → AtMost found m

pub AtMost-le : (best : Best) (m n : ℕ) → m ≤ n → AtMost best m → AtMost best n
AtMost-le none m n h a = a
AtMost-le (some b) m n h a = omega (arith, h, a)

pub AtMost-not_beats : (best : Best) (m : ℕ) → beats m best ≡ false → AtMost best m
AtMost-not_beats none m h = ground arith
AtMost-not_beats (some b) m h = ground (arith, h)

pub IsAsGood-beats :
    (best : Best) (buckets : List (List ℕ)) (mk : ℕ)
    → beats mk best ≡ true
    → IsAsGood best (some (record { buckets = buckets; makespan = mk }))
IsAsGood-beats none buckets mk h m a = absurd a
IsAsGood-beats (some b) buckets mk h m a = ground (arith, h, a)

module _ (workers : ℕ) where
  -- As good as any assignment of the weights on top of the loads
  abbrev pub IsBelow : List ℕ → List ℕ → Best → Type 0
  IsBelow weights loads best =
      (ws : List ℕ)
      → IsAssignment workers weights ws
      → AtMost best (max_load (spread loads weights ws))

  IsBelow-good :
      (weights loads : List ℕ) (best found : Best)
      → IsAsGood best found
      → IsBelow weights loads best
      → IsBelow weights loads found
  IsBelow-good weights loads best found g b ws a = g _ (b ws a)

  IsBelow-perm :
      (weights xs ys : List ℕ) (best : Best)
      → Permᴰ xs ys
      → length xs ≡ workers
      → length ys ≡ workers
      → IsBelow weights xs best
      → IsBelow weights ys best
  IsBelow-perm weights xs ys best p e f b ws a =
      let (vs, c, q) = spread-perm workers weights ws ys xs (Permᴰ.symm p) f e a in
      subst (AtMost best) (sym (max_load-perm q)) (b vs c)

  -- The result is the one before, or that of an assignment of the weights from index `i` on.
  abbrev pub IsFound : ℕ → List ℕ → List (List ℕ) → List ℕ → Best → Best → Type 0
  IsFound i weights buckets loads best found =
      (found ≡ best)
      ⊎ ((ws : List ℕ) × IsAssignment workers weights ws
          × (found
              ≡ some (record {
                buckets = distribute i buckets ws;
                makespan = max_load (spread loads weights ws);
              })))

  abbrev pub Searched : ℕ → List ℕ → List (List ℕ) → List ℕ → Best → Best → Type 0
  Searched i weights buckets loads best found =
      IsAsGood best found × IsBelow weights loads found × IsFound i weights buckets loads best found

  module _ (next : List (List ℕ) → List ℕ → Best → Best) (i x : ℕ) (weights : List ℕ)
      (next-Searched : (buckets : List (List ℕ)) (loads : List ℕ) (best : Best)
        → length loads ≡ workers
        → Searched (suc i) weights buckets loads best (next buckets loads best))
      (buckets : List (List ℕ)) (loads : List ℕ) (wide : length loads ≡ workers) where
    -- Every load seen is that of a worker that was tried.
    abbrev pub IsSeen : List ℕ → Best → Type 0
    IsSeen seen best =
        (l : ℕ)
        → In l seen
        → (v : ℕ) × (v < workers)
          × (load_at v loads ≡ l)
          × IsBelow weights (add_load v x loads) best

    -- What one worker adds to the search
    abbrev Step : ℕ → List ℕ → Best → List ℕ → Best → Type 0
    Step w seen best seen' found =
        IsAsGood best found
        × IsBelow weights (add_load w x loads) found
        × IsSeen seen' found
        × IsFound i (x ∷ weights) buckets loads best found

    step :
        (w : ℕ) (seen : List ℕ) (best : Best) (known : Bool)
        → any (λ l. l == load_at w loads) seen ≡ known
        → w < workers
        → IsSeen seen best
        → Step w seen best
            (if known then seen else load_at w loads ∷ seen)
            (if known then best else next (push_job w i buckets) (add_load w x loads) best)
    step w seen best true e w< s =
        let (l, j, f) = any→In (λ l. l == load_at w loads) seen e in
        let (v, v<, g, b) = s l j in
        (
          λ m a. a,
          IsBelow-perm weights (add_load v x loads) (add_load w x loads) best
              (add_load-same x loads v w (omega (arith, v<, wide)) (omega (arith, w<, wide))
                (g ∙ (==_iff l (load_at w loads)).0 f))
              (length-add_load v x loads ∙ wide) (length-add_load w x loads ∙ wide) b,
          s,
          inl refl,
        )
    step w seen best false e w< s =
        let found = next (push_job w i buckets) (add_load w x loads) best in
        let (g, b, f) =
          next-Searched (push_job w i buckets) (add_load w x loads) best
            (length-add_load w x loads ∙ wide) in
        (g, b, see g b, assigned f)
      where
        see :
            IsAsGood best (next (push_job w i buckets) (add_load w x loads) best)
            → IsBelow weights
                (add_load w x loads)
                (next (push_job w i buckets) (add_load w x loads) best)
            → IsSeen
                (load_at w loads ∷ seen)
                (next (push_job w i buckets) (add_load w x loads) best)
        see g b l (inl k) = (w, w<, sym k, b)
        see g b l (inr j) =
            let (v, v<, k, c) = s l j in
            (v, v<, k, IsBelow-good weights (add_load v x loads) best _ g c)

        assigned :
            IsFound
              (suc i)
              weights
              (push_job w i buckets)
              (add_load w x loads)
              best
              (next (push_job w i buckets) (add_load w x loads) best)
            → IsFound i
                (x ∷ weights)
                buckets
                loads
                best
                (next (push_job w i buckets) (add_load w x loads) best)
        assigned (inl k) = inl k
        assigned (inr (ws, a, k)) = inr (w ∷ ws, (w<, a), k)

    IsFound-trans :
        (best mid found : Best)
        → IsFound i (x ∷ weights) buckets loads best mid
        → IsFound i (x ∷ weights) buckets loads mid found
        → IsFound i (x ∷ weights) buckets loads best found
    IsFound-trans best mid found f (inr g) = inr g
    IsFound-trans best mid found (inl e) (inl k) = inl (k ∙ e)
    IsFound-trans best mid found (inr (ws, a, e)) (inl k) = inr (ws, a, k ∙ e)

    pub try_workers-Searched :
        (us seen : List ℕ) (best : Best)
        → All (λ w. w < workers) us
        → IsSeen seen best
        → let found = try_workers next i x buckets loads us seen best in
          IsAsGood best found
          × ((w : ℕ) → In w us → IsBelow weights (add_load w x loads) found)
          × IsFound i (x ∷ weights) buckets loads best found
    unfolding try_workers
    try_workers-Searched [] seen best h s = (λ m a. a, λ w j. absurd j, inl refl)
    try_workers-Searched (w ∷ us) seen best h s =
        let known = any (λ l. l == load_at w loads) seen in
        let mid = if known then best else next (push_job w i buckets) (add_load w x loads) best in
        let (g, b, s', f) = step w seen best known refl h.0 s in
        let (g', b', f') =
          try_workers-Searched us (if known then seen else load_at w loads ∷ seen) mid h.1 s' in
        (
          λ m a. g' m (g m a),
          λ v j. elim j [
            | inl e ↦
                subst
                  (λ z.
                    IsBelow weights (add_load z x loads)
                      (try_workers next i x buckets loads (w ∷ us) seen best))
                  (sym e) (IsBelow-good weights (add_load w x loads) mid _ g' b)
            | inr k ↦ b' v k
          ],
          IsFound-trans best mid _ f f',
        )
