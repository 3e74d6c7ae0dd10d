-- ===== src/Accel/Scan.antt =====
-- `_python_scan_ports` of core/accel.py: the rows that the socket probe reports.
use mathlib.Core.List.Permᴰ
use helios_net.Prelude.{
  ◌≡◌, refl, sym, ap, ◌∙◌, ◌↔◌, inl, inr, true, false, List, [], ◌∷◌, In, In-keep, keep-In, In-perm,
  map, arith,
}
use helios_net.Prelude.Int.{ℤ}
use helios_net.Prelude.Sort.{sort_by-perm}
use helios_net.Accel.Ops.{
  Row, PortState, open_port, closed, filtered, is_open, le_row, python_scan_ports,
}

is_open→open : (row : Row) → is_open row ≡ true → row.state ≡ open_port
unfolding is_open
is_open→open row h = go row.state refl
  where
    go : (s : PortState) → row.state ≡ s → row.state ≡ open_port
    go open_port e = e
    go closed e = absurd (clash (sym (rw e at h)))
      where
        clash : ¬ (true ≡ false)
        clash k = ground arith
    go filtered e = absurd (clash (sym (rw e at h)))
      where
        clash : ¬ (true ≡ false)
        clash k = ground arith

open→is_open : (row : Row) → row.state ≡ open_port → is_open row ≡ true
unfolding is_open
open→is_open row h = rw h refl

module _ (probe : ℤ → PortState) where
  abbrev probed : ℤ → Row
  probed p = record { port = p; state = probe p }

  In-probed :
      (ports : List ℤ) (row : Row)
      → In row (map probed ports)
      → In row.port ports × (row.state ≡ probe row.port)
  In-probed [] row i = absurd i
  In-probed (p ∷ ports) row (inl e) =
      (inl (ap (λ r. r.port) e), ap (λ r. r.state) e ∙ ap probe (sym (ap (λ r. r.port) e)))
  In-probed (p ∷ ports) row (inr i) = let (j, s) = In-probed ports row i in (inr j, s)

  probed-In :
      (ports : List ℤ) (row : Row)
      → In row.port ports
      → row.state ≡ probe row.port
      → In row (map probed ports)
  probed-In [] row i s = absurd i
  probed-In (p ∷ ports) row (inl e) s = inl (cc (e, s, ap probe e))
  probed-In (p ∷ ports) row (inr i) s = inr (probed-In ports row i s)

  -- The rows of the socket probe are just the ports that were asked for and that answered as open.
  pub python_scan_ports-In :
      (ports : List ℤ) (row : Row)
      → In row (python_scan_ports probe ports)
        ↔ (In row.port ports × (probe row.port ≡ open_port) × (row.state ≡ open_port))
  unfolding python_scan_ports
  python_scan_ports-In ports row =
      let perm = sort_by-perm le_row (map probed ports) in
      (
        λ i.
            let (j, o) = In-keep row is_open _ i in
            let (k, s) = In-probed ports row (In-perm row perm j) in
            let opened = is_open→open row o in (k, sym s ∙ opened, opened),
        λ h.
            let (k, p, s) = h in
            keep-In row is_open _
              (In-perm row (Permᴰ.symm perm) (probed-In ports row k (s ∙ sym p)))
              (open→is_open row s),
      )
