-- ===== src/Accel/Serve.antt =====
-- The loop that all operations of core/accel.py share: the first backend that can serve does.
use helios_net.Prelude.{
  ◌≡◌, refl, sym, subst, ◌⊎◌, inl, inr, true, false, Bool-cases, Option, none, some, List, [], ◌∷◌,
  ◌++◌, any, append_assoc, append-nil,
}
use helios_net.Accel.{
  Backend, BackendInfo, Capability, Skip, unavailable, lacks, raised, Served, served, unserved,
  attempt, value_or, return_or, serve, eqb_capability,
}

module _ {A : Type 0} (capability : Capability) (infos : Backend → BackendInfo)
    (run : Backend → Option A) where
  -- The backend is there, has the capability, and returns the value.
  pub record Serves (name : Backend) (value : A) : Type 0 where
    pub available : (infos name).available ≡ true
    pub capable : any (eqb_capability capability) (infos name).capabilities ≡ true
    pub returns : run name ≡ some value

  -- Why a backend is passed over
  pub data Passes (name : Backend) : Skip → Type 0 where
    absent : (infos name).available ≡ false → Passes name (unavailable name)
    incapable :
        (infos name).available ≡ true
        → any (eqb_capability capability) (infos name).capabilities ≡ false
        → Passes name (lacks name)
    raises :
        (infos name).available ≡ true
        → any (eqb_capability capability) (infos name).capabilities ≡ true
        → run name ≡ none
        → Passes name (raised name)

  -- Each backend in turn is passed over, for the reason beside it.
  abbrev pub AllPass : List Backend → List Skip → Type 0
  AllPass [] [] = Unit
  AllPass (name ∷ names) (skip ∷ skips) = Passes name skip × AllPass names skips
  AllPass _ _ = ⊥

  -- What one attempt comes to
  Tried : Backend → Skip ⊎ A → Type 0
  Tried name (inl skip) = Passes name skip
  Tried name (inr value) = Serves name value

  value_or-Tried :
      (name : Backend) (result : Option A)
      → (infos name).available ≡ true
      → any (eqb_capability capability) (infos name).capabilities ≡ true
      → run name ≡ result
      → Tried name (value_or name result)
  unfolding Tried value_or
  value_or-Tried name none on can e = raises on can e
  value_or-Tried name (some value) on can e = record { available = on; capable = can; returns = e }

  attempt-Tried : (name : Backend) → Tried name (attempt capability (infos name) name (run name))
  unfolding Tried attempt
  attempt-Tried name = elim (Bool-cases (infos name).available) [
    | inr off ↦ rw off (absent off)
    | inl on ↦ elim (Bool-cases (any (eqb_capability capability) (infos name).capabilities)) [
      | inr off ↦ rw (on, off) (incapable on off)
      | inl can ↦ rw (on, can) (value_or-Tried name (run name) on can refl)
    ]
  ]

  -- What `serve` returns: the value of the first backend that serves with the reasons of those before
  -- it, or, where none serves, the reasons of all.
  pub data IsFirst (order : List Backend) : Served A → Type 0 where
    first :
        (before after : List Backend) (name : Backend) (value : A) (reasons : List Skip)
        → order ≡ before ++ name ∷ after
        → AllPass before reasons
        → Serves name value
        → IsFirst order (served name value reasons)
    no_one : (reasons : List Skip) → AllPass order reasons → IsFirst order (unserved reasons)

  AllPass-snoc :
      (before : List Backend) (skips : List Skip) (name : Backend) (skip : Skip)
      → AllPass before skips
      → Passes name skip
      → AllPass (before ++ name ∷ []) (skips ++ skip ∷ [])
  AllPass-snoc [] [] name skip h p = (p, tt)
  AllPass-snoc [] (s ∷ skips) name skip h p = absurd h
  AllPass-snoc (n ∷ before) [] name skip h p = absurd h
  AllPass-snoc (n ∷ before) (s ∷ skips) name skip h p =
      (h.0, AllPass-snoc before skips name skip h.1 p)

  -- `before` has been passed over for the reasons so far.
  serve-after :
      (order before : List Backend) (reasons : List Skip)
      → AllPass before reasons
      → IsFirst (before ++ order) (serve capability infos run order reasons)
  unfolding serve Tried return_or
  serve-after [] before reasons h =
      no_one reasons (subst (λ o. AllPass o reasons) (sym (append-nil before)) h)
  serve-after (name ∷ order) before reasons h =
      next (attempt capability (infos name) name (run name)) (attempt-Tried name) (λ skip p.
        subst (λ o. IsFirst o (serve capability infos run order (reasons ++ skip ∷ [])))
          (append_assoc before (name ∷ []) order)
          (serve-after order (before ++ name ∷ []) (reasons ++ skip ∷ [])
            (AllPass-snoc before reasons name skip h p)))
    where
      next :
          (result : Skip ⊎ A)
          → Tried name result
          → ((skip : Skip)
              → Passes name skip
              → IsFirst
                  (before ++ name ∷ order)
                  (serve capability infos run order (reasons ++ skip ∷ [])))
          → IsFirst
              (before ++ name ∷ order)
              (return_or name reasons (serve capability infos run order) result)
      next (inl skip) p rec = rec skip p
      next (inr value) s rec = first before order name value reasons refl h s

  -- The loop returns the value of the first backend of the order that is there, has the capability and
  -- does not raise, and the reasons why those before it did not serve; where no backend serves, it
  -- returns the reasons of all of them.
  pub serve-IsFirst : (order : List Backend) → IsFirst order (serve capability infos run order [])
  serve-IsFirst order = serve-after order [] [] tt
