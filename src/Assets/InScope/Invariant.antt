-- ===== src/Assets/InScope/Invariant.antt =====
-- What holds of the walk, in each state and of the result of each step.
use helios_net.Prelude.{
  ℕ, ◌+◌, ◌≤◌, ◌≡◌, refl, Bool, true, false, Option, none, some, List, All, length, In,
  if◌then◌else◌,
}
use helios_net.Prelude.Text.{Text}
use helios_net.Assets.{Request, Outside, Finding}
use helios_net.Assets.Walk.{Walk, HostEntry, Settings, then_walk}
use helios_net.Assets.InScope.Hops.{IsInScope, HasBadPort}

module _ (is_allowed : Text → Bool) (out : Outside) (settings : Settings) where
  -- The finding is about an allowed host, at an allowed address, on a port of the plan.
  pub record IsFound (f : Finding) : Type 0 where
    pub host : is_allowed f.host ≡ true
    pub ip : is_allowed f.ip ≡ true
    pub port : In f.port settings.plan

  abbrev pub IsHost : HostEntry → Type 0
  IsHost h = (is_allowed h.host ≡ true) × All (λ a. is_allowed a ≡ true) h.addresses

  -- The requests are in scope, counted, and at most `b`.
  pub record IsSent (b requests : ℕ) (trace : List Request) : Type 0 where
    pub in_scope : All (IsInScope is_allowed) trace
    pub counted : length trace ≡ requests
    pub bounded : requests ≤ b

  -- What was found, with at most `m` hosts among `n` names
  pub record IsListed (n m : ℕ) (findings : List Finding) (hosts : List HostEntry)
      (seen : List Text) : Type 0 where
    pub found : All IsFound findings
    pub hosts_ok : All IsHost hosts
    pub seen_count : length seen ≡ n
    pub host_count : length hosts ≤ m

  abbrev pub IsWalk : ℕ → ℕ → ℕ → Walk → Type 0
  IsWalk n m b w = IsSent b w.requests w.trace × IsListed n m w.findings w.hosts w.seen

  abbrev pub Holds : (Walk → Type 0) → Option Walk → Type 0
  Holds P none = HasBadPort out
  Holds P (some w) = P w

  pub then_walk-Holds :
      (P Q : Walk → Type 0) (o : Option Walk) (k : Walk → Option Walk)
      → Holds P o
      → ((w : Walk) → P w → Holds Q (k w))
      → Holds Q (then_walk o k)
  unfolding then_walk
  then_walk-Holds P Q none k h f = h
  then_walk-Holds P Q (some w) k h f = f w h

  pub if-Holds :
      (P : Walk → Type 0) (b : Bool) (x y : Option Walk)
      → (b ≡ true → Holds P x)
      → (b ≡ false → Holds P y)
      → Holds P (if b then x else y)
  if-Holds P true x y f g = f refl
  if-Holds P false x y f g = g refl

  -- Over the budget by one request at most
  abbrev pub IsBounded : ℕ → ℕ → Walk → Type 0
  IsBounded n m w = IsWalk n m (settings.max_requests + 1) w
