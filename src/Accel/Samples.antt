-- ===== src/Accel/Samples.antt =====
-- Requests on small hosts, and each theorem of the backends at one.
use helios_net.Prelude.{
  ◌≤◌, ◌≡◌, ◌↔◌, refl, sym, ◌∙◌, true, false, none, some, List, [], ◌∷◌, length, In, arith,
  if◌then◌else◌,
}
use helios_net.Prelude.Int.{ℤ, pos, eqb_ℤ}
use helios_net.Prelude.Text.{Text, codes}
use helios_net.Accel.{
  Backend, c, rust, go, python, Host, backend_info, matches, served, Skip, order_for, preference,
}
use helios_net.Accel.Serve.{IsFirst}
use helios_net.Accel.Match.{
  Match, Cores, MatchOutcome, python_match, match_signatures, run_match, engine_of, normalise_hits,
}
use helios_net.Accel.PythonMatch.{IsHit, python_match-IsHit}
use helios_net.Accel.Ops.{PortState, open_port, closed}
use helios_net.Accel.Outcomes.{match_signatures-IsFirst, match_signatures-agree}
use helios_net.Accel.Compare.{compare_backends}
use helios_net.Accel.Corroboration.{SameHits, compare_backends-SameHits, compare_backends-alone}
use helios_net.Signatures.{push_start}

-- C is there and raises; Rust answers as Python does.
abbrev host : Host
host = record { c_available = true; rust_available = true; go_available = false }

abbrev cores : Cores
cores = record { c_match = λ text patterns. none; rust_match = python_match }

abbrev banner : Text
banner = codes "SSH ssh"

abbrev names : List Text
names = codes "ssh" ∷ []

abbrev both_hits : List Match
both_hits =
    record { signature = codes "ssh"; position = pos 0 }
    ∷ record { signature = codes "ssh"; position = pos 4 }
    ∷ []

banner_hits : python_match banner names ≡ some both_hits
unfolding python_match push_start
banner_hits = refl

unpinned : order_for none preference ≡ some preference
unfolding order_for
unpinned = refl

match_signatures-IsFirst_example :
    (name : Backend) × (hits : List Match) × (reasons : List Skip) × (match_signatures host cores
        banner names none
      ≡ some (record { matches = normalise_hits hits; engine = engine_of name; reasons = reasons }))
    × IsFirst matches
        (backend_info host)
        (run_match cores banner names)
        preference
        (served name hits reasons)
match_signatures-IsFirst_example =
    match_signatures-IsFirst host cores b'S' (codes "SH ssh") (codes "ssh") [] none preference
      unpinned

cores_agree :
    (name : Backend) (hits : List Match)
    → run_match cores banner names name ≡ some hits
    → (x : Match) → In x hits ↔ In x both_hits
cores_agree c hits h x = absurd (nothing h)
  where
    nothing : ¬ (none ≡ some hits)
    nothing k = ground arith
cores_agree rust hits h x = same (sym h ∙ banner_hits)
  where
    same : some hits ≡ some both_hits → In x hits ↔ In x both_hits
    same e = let f : hits ≡ both_hits = cc e in rw f (λ i. i, λ i. i)
cores_agree go hits h x = same (sym h ∙ banner_hits)
  where
    same : some hits ≡ some both_hits → In x hits ↔ In x both_hits
    same e = let f : hits ≡ both_hits = cc e in rw f (λ i. i, λ i. i)
cores_agree python hits h x = same (sym h ∙ banner_hits)
  where
    same : some hits ≡ some both_hits → In x hits ↔ In x both_hits
    same e = let f : hits ≡ both_hits = cc e in rw f (λ i. i, λ i. i)

match_signatures-agree_example :
    (o : MatchOutcome) × (match_signatures host cores banner names none ≡ some o)
    × (o.matches ≡ normalise_hits both_hits)
match_signatures-agree_example =
    match_signatures-agree host cores b'S' (codes "SH ssh") (codes "ssh") [] none preference
      both_hits unpinned banner_hits cores_agree

python_match-IsHit_example :
    (hits : List Match) × (python_match banner names ≡ some hits)
    × ((x : Match) → In x hits ↔ ((pattern : Text) × In pattern names × IsHit banner pattern x))
python_match-IsHit_example = python_match-IsHit banner names

compare_backends-alone_example :
    let comparison =
      compare_backends
        (record { c_available = true; rust_available = false; go_available = true })
        cores
        banner
        names in
    (hits : List Match) × (comparison.backends ≡ (c, hits) ∷ (python, hits) ∷ [])
    × (comparison.agree ≡ some true)
    × (comparison.corroborated ≡ true)
compare_backends-alone_example =
    compare_backends-alone cores b'S' (codes "SH ssh") (codes "ssh") [] true refl

abbrev bare_host : Host
bare_host = record { c_available = true; rust_available = false; go_available = true }

two_listed : (compare_backends bare_host cores banner names).agree ≡ some true
two_listed = (compare_backends-alone cores b'S' (codes "SH ssh") (codes "ssh") [] true refl).2

compare_backends-SameHits_example :
    let comparison = compare_backends bare_host cores banner names in
    (2 ≤ length comparison.backends)
    × ((x y : Backend × List Match)
        → In x comparison.backends
        → In y comparison.backends
        → SameHits x.1 y.1)
compare_backends-SameHits_example =
    compare_backends-SameHits bare_host cores banner names two_listed

abbrev probe : ℤ → PortState
probe p = if eqb_ℤ p (pos 22) then open_port else closed
