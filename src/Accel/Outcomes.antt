-- ===== src/Accel/Outcomes.antt =====
-- The outcome of `match_signatures` of core/accel.py, whose last resort is Python.

use package.text.Mathlib.Text.{◌==◌ as str_eq}
use helios_net.Prelude.{
  Bool-cases, ℕ, String, ◌≡◌, refl, sym, ap, subst, ◌∙◌, inl, inr, true, false, Option, none, some,
  List, [], ◌∷◌, In, arith, ◌↔◌, keep-In,
}
use helios_net.Prelude.Text.{Text}
use helios_net.Accel.{
  Backend, c, rust, go, python, Capability, matches, BackendInfo, backend_info, info_if, Host, Skip,
  Served, served, unserved, serve, preference, order_for, backend_of, pin, pin_known, eqb_backend,
  backend_code, eqb_capability, capability_code,
}
use helios_net.Accel.Serve.{
  Serves, Passes, absent, incapable, raises, AllPass, IsFirst, first, no_one, serve-IsFirst,
}
use helios_net.Accel.Match.{
  Match, Cores, MatchOutcome, match_signatures, match_in_order, match_outcome, run_match, engine_of,
  normalise_hits, python_match,
}
use helios_net.Accel.PythonMatch.{python_match-IsHit}
use helios_net.Accel.Normalise.{normalise_hits_eq}

module _ {A : Type 0} (capability : Capability) (infos : Backend → BackendInfo)
    (run : Backend → Option A) where
  AllPass-In :
      (names : List Backend) (skips : List Skip) (name : Backend)
      → AllPass capability infos run names skips
      → In name names
      → (skip : Skip) × Passes capability infos run name skip
  AllPass-In [] skips name h i = absurd i
  AllPass-In (n ∷ names) [] name h i = absurd h
  AllPass-In (n ∷ names) (s ∷ skips) name h (inl e) =
      (s, subst (λ m. Passes capability infos run m s) (sym e) h.0)
  AllPass-In (n ∷ names) (s ∷ skips) name h (inr i) = AllPass-In names skips name h.1 i

  Serves-Passes :
      (name : Backend) (value : A) (skip : Skip)
      → Serves capability infos run name value
      → ¬ Passes capability infos run name skip
  Serves-Passes name value skip s (absent off) = clash (sym s.available ∙ off)
    where
      clash : ¬ (true ≡ false)
      clash h = ground arith
  Serves-Passes name value skip s (incapable on off) = clash (sym s.capable ∙ off)
    where
      clash : ¬ (true ≡ false)
      clash h = ground arith
  Serves-Passes name value skip s (raises on can e) = clash (sym e ∙ s.returns)
    where
      clash : ¬ (none ≡ some value)
      clash h = ground arith

  -- Where one backend of the order serves, some backend does.
  pub serve-served :
      (order : List Backend) (name : Backend) (value : A)
      → In name order
      → Serves capability infos run name value
      → (n : Backend) × (v : A) × (reasons : List Skip) × (serve capability infos run order []
          ≡ served n v reasons)
        × IsFirst capability infos run order (served n v reasons)
  serve-served order name value i s =
      go (serve capability infos run order []) (serve-IsFirst capability infos run order) refl
    where
      go :
          (result : Served A)
          → IsFirst capability infos run order result
          → serve capability infos run order [] ≡ result
          → (n : Backend) × (v : A) × (reasons : List Skip) × (serve capability infos run order []
              ≡ served n v reasons)
            × IsFirst capability infos run order (served n v reasons)
      go (served n v reasons) f e = (n, v, reasons, e, f)
      go (unserved reasons) (no_one rs h) e =
          let (skip, p) = AllPass-In order rs name h i in absurd (Serves-Passes name value skip s p)

pub some_eq : {A : Type 0} {a b : A} → some a ≡ some b → a ≡ b
some_eq h = cc h

python-Serves-matches :
    (host : Host) (cores : Cores) (text : Text) (patterns : List Text) (found : List Match)
    → run_match cores text patterns python ≡ some found
    → Serves matches (backend_info host) (run_match cores text patterns) python found
unfolding backend_info info_if eqb_capability capability_code
python-Serves-matches host cores text patterns found e = record {
  available = refl;
  capable = refl;
  returns = e;
}

-- The first one returned its value.
first-returns :
    {A : Type 0} {capability : Capability} {infos : Backend → BackendInfo}
    {run : Backend → Option A}
    → {order : List Backend} {name : Backend} {value : A} {reasons : List Skip}
    → IsFirst capability infos run order (served name value reasons)
    → run name ≡ some value
first-returns (first before after name value reasons e h s) = s.returns

-- Python stays in every order, whatever is pinned.
module _ (base : List Backend) (i : In python base) where
  pin-python : (name : Backend) → In python (pin base name)
  unfolding pin eqb_backend backend_code
  pin-python c = inr (keep-In python _ base i refl)
  pin-python rust = inr (keep-In python _ base i refl)
  pin-python go = inr (keep-In python _ base i refl)
  pin-python python = inl refl

  pin_known-python :
      (known : Option Backend) (order : List Backend)
      → pin_known base known ≡ some order
      → In python order
  unfolding pin_known
  pin_known-python none order h = ground arith
  pin_known-python (some name) order h = subst (In python) (some_eq h) (pin-python name)

  order_for-python :
      (prefer : Option String) (order : List Backend)
      → order_for prefer base ≡ some order
      → In python order
  unfolding order_for
  order_for-python none order h = subst (In python) (some_eq h) i
  order_for-python (some name) order h = elim (Bool-cases (str_eq name "")) [
    | inl e ↦ subst (In python) (some_eq (rw e at h)) i
    | inr e ↦ pin_known-python (backend_of name) order (rw e at h)
  ]

-- A text and patterns that are not empty are matched by the first backend of the order that is there
-- and does not raise: the outcome holds its hits, normalised, and its engine, and there is always one.
pub match_signatures-IsFirst :
    (host : Host) (cores : Cores) (a : ℕ) (text p : Text) (patterns : List Text)
    (prefer : Option String)
    → (order : List Backend) → order_for prefer preference ≡ some order
    → (name : Backend) × (hits : List Match) × (reasons : List Skip) × (match_signatures host cores
          (a ∷ text)
          (p ∷ patterns)
          prefer
        ≡ some
            (record { matches = normalise_hits hits; engine = engine_of name; reasons = reasons }))
      × IsFirst matches
          (backend_info host)
          (run_match cores (a ∷ text) (p ∷ patterns))
          order
          (served name hits reasons)
unfolding match_signatures match_in_order match_outcome
match_signatures-IsFirst host cores a text p patterns prefer order e =
    let infos = backend_info host in
    let run = run_match cores (a ∷ text) (p ∷ patterns) in
    let (found, returns, _) = python_match-IsHit (a ∷ text) (p ∷ patterns) in
    let (name, hits, reasons, served_eq, is_first) =
      serve-served matches infos run order python found
        (order_for-python preference (inr (inr (inl refl))) prefer order e)
        (python-Serves-matches host cores (a ∷ text) (p ∷ patterns) found returns) in
    (
      name,
      hits,
      reasons,
      ap (match_in_order host cores (a ∷ text) (p ∷ patterns)) e
          ∙ ap (λ s. some (match_outcome s)) served_eq,
      is_first,
    )

-- Where each core that returns reports the set of hits that Python reports, the matches do not depend
-- on which backend served.
pub match_signatures-agree :
    (host : Host) (cores : Cores) (a : ℕ) (text p : Text) (patterns : List Text)
    (prefer : Option String)
    → (order : List Backend) (found : List Match) → order_for prefer preference ≡ some order
    → python_match (a ∷ text) (p ∷ patterns) ≡ some found
    → ((name : Backend) (hits : List Match)
        → run_match cores (a ∷ text) (p ∷ patterns) name ≡ some hits
        → (x : Match) → In x hits ↔ In x found)
    → (o : MatchOutcome) × (match_signatures host cores (a ∷ text) (p ∷ patterns) prefer ≡ some o)
      × (o.matches ≡ normalise_hits found)
match_signatures-agree host cores a text p patterns prefer order found e returns agree =
    let (name, hits, reasons, served_eq, is_first) =
      match_signatures-IsFirst host cores a text p patterns prefer order e in
    (_, served_eq, normalise_hits_eq hits found (agree name hits (first-returns is_first)))
