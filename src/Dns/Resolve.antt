-- ===== src/Dns/Resolve.antt =====
-- The class `EliteDNSResolver` of modules/discovery/dns_resolver.py: its cache and its servers.
use helios_net.Prelude.{
  ℕ, ◌+◌, ◌<◌, ◌≤◌, subst, ◌≡◌, ◌≢◌, refl, sym, ◌∙◌, ap, ◌⊎◌, inl, inr, if◌then◌else◌, ltb, Option,
  none, some, List, [], ◌∷◌, take, arith,
}
use helios_net.Prelude.Bytes.{Bytes}
use helios_net.Prelude.Text.{Text, codes}
use helios_net.Prelude.Eq.{nat_eq, text_eq, pair_eq}
use helios_net.Prelude.Dict.{Dict, dict_get, dict_set, get-set, get-set_other}
use helios_net.Dns.{Address, build_edns_query, parse_response, first_answer}

-- An entry of the cache, and its key, a domain and a type
pub record Cached : Type 0 where
  pub expiry : ℕ
  pub ips : List Address

abbrev pub CacheKey : Type 0
CacheKey = Text × ℕ

pub record Resolver : Type 0 where
  pub nameservers : List Text
  pub cache : Dict CacheKey Cached

-- `nameservers or [...]`
unfoldable pub new_resolver : List Text → Resolver
new_resolver [] = record {
  nameservers = codes "8.8.8.8" ∷ codes "1.1.1.1" ∷ codes "8.8.4.4" ∷ [];
  cache = [];
}
new_resolver (ns ∷ nameservers) = record { nameservers = ns ∷ nameservers; cache = [] }

-- What `recvfrom(1024)` leaves of a response; `none` is an `OSError`.
unfoldable pub read_reply : Option Bytes → List Address
unfolding parse_response
read_reply none = []
read_reply (some resp) = parse_response (take 1024 resp)

-- The entry of the cache if it holds at that time
unfoldable pub fresh : ℕ → Option Cached → Option (List Address)
fresh now none = none
fresh now (some c) = if ltb now c.expiry then some c.ips else none

-- A call: the time and the transaction id that it draws, and what each server answers to a query
module _ (now tx_id : ℕ) (send : Bytes → Text → Option Bytes) where
  -- `_query_sync`
  unfoldable pub query_sync : Bytes → Text → List Address
  unfolding read_reply
  query_sync query ns = read_reply (send query ns)

  -- From the loop over the servers on
  unfoldable pub ask_servers : Resolver → CacheKey → Option Bytes → Option (List Address × Resolver)
  unfolding query_sync first_answer dict_set
  ask_servers r key none = none
  ask_servers r key (some query) =
      let ips = first_answer (query_sync query) r.nameservers in
      some
        (ips, record r { cache = dict_set key (record { expiry = now + 120; ips = ips }) r.cache })

  unfoldable pub resolve_cached :
      Resolver → CacheKey → Option (List Address) → Option (List Address × Resolver)
  unfolding ask_servers build_edns_query
  resolve_cached r key (some ips) = some (ips, r)
  resolve_cached r key none = ask_servers r key (build_edns_query tx_id key.0 key.1)

  -- `resolve`; `none` is an exception of `_build_edns_query`.
  unfoldable pub resolve : Resolver → Text → ℕ → Option (List Address × Resolver)
  unfolding resolve_cached fresh dict_get
  resolve r domain qtype =
      resolve_cached r (domain, qtype) (fresh now (dict_get (domain, qtype) r.cache))

-- The addresses are those of the first server that gives some, if there is one.
pub data IsFailover (ask : Text → List Address) : List Text → List Address → Type 0 where
  exhausted : IsFailover ask [] []
  served : {ns : Text} {rest : List Text} → ask ns ≢ [] → IsFailover ask (ns ∷ rest) (ask ns)
  passed_over :
      {ns : Text} {rest : List Text} {ips : List Address}
      → ask ns ≡ []
      → IsFailover ask rest ips
      → IsFailover ask (ns ∷ rest) ips

first_answer-IsFailover :
    (ask : Text → List Address) (nameservers : List Text)
    → IsFailover ask nameservers (first_answer ask nameservers)
unfolding first_answer
first_answer-IsFailover ask [] = exhausted
first_answer-IsFailover ask (ns ∷ rest) = go (ask ns) refl (first_answer-IsFailover ask rest)
  where
    go :
        (ips : List Address)
        → ask ns ≡ ips
        → IsFailover ask rest (first_answer ask rest)
        → IsFailover ask
            (ns ∷ rest)
            (elim ips [ [] ↦ first_answer ask rest | ip ∷ more ↦ ip ∷ more ])
    go [] h later = passed_over h later
    go (ip ∷ more) h later =
        subst (IsFailover ask (ns ∷ rest)) h (served (λ f. ground (arith, sym h ∙ f)))

-- What a call of `resolve` does to a resolver, by its outcome
module _ (now tx_id : ℕ) (send : Bytes → Text → Option Bytes) (r : Resolver) (domain : Text)
    (qtype : ℕ) where
  abbrev held : Option (List Address)
  held = fresh now (dict_get (domain, qtype) r.cache)

  -- The cache holds no addresses, and the servers are asked.
  pub record IsAsked (query : Bytes) (ips : List Address) (after : Resolver) : Type 0 where
    pub built : build_edns_query tx_id domain qtype ≡ some query
    pub unheld : held ≡ none
    pub failover : IsFailover (query_sync now tx_id send query) r.nameservers ips
    pub same_servers : after.nameservers ≡ r.nameservers
    pub cached :
        (later : ℕ)
        → later < now + 120
        → fresh later (dict_get (domain, qtype) after.cache) ≡ some ips
    pub expired :
        (later : ℕ) → now + 120 ≤ later → fresh later (dict_get (domain, qtype) after.cache) ≡ none
    pub others :
        (key : CacheKey) → key ≢ (domain, qtype) → dict_get key after.cache ≡ dict_get key r.cache

  abbrev pub Resolves : Option (List Address × Resolver) → Type 0
  Resolves none = (held ≡ none) × (build_edns_query tx_id domain qtype ≡ none)
  Resolves (some (ips, after)) =
      ((held ≡ some ips) × (after ≡ r)) ⊎ ((query : Bytes) × IsAsked query ips after)

  fresh-new :
      (later : ℕ) (ips : List Address)
      → later < now + 120
      → fresh later (some (record { expiry = now + 120; ips = ips })) ≡ some ips
  unfolding fresh
  fresh-new later ips h = ground (arith, h)

  fresh-old :
      (later : ℕ) (ips : List Address)
      → now + 120 ≤ later
      → fresh later (some (record { expiry = now + 120; ips = ips })) ≡ none
  unfolding fresh
  fresh-old later ips h = ground (arith, h)

  -- The addresses come from the cache where it holds some for the domain and the type, and nothing
  -- changes. Else they are those of the first server that gives some, if there is one; the cache holds
  -- them, empty or not, for the next 120 seconds and not longer, and its other entries stay. Only where
  -- they are not held and the query cannot be built it raises.
  pub resolve-Resolves : Resolves (resolve now tx_id send r domain qtype)
  unfolding resolve
  resolve-Resolves = go held refl
    where
      entry : List Address → Cached
      entry ips = record { expiry = now + 120; ips = ips }

      asked :
          held ≡ none
          → (o : Option Bytes) → build_edns_query tx_id domain qtype ≡ o
          → Resolves (ask_servers now tx_id send r (domain, qtype) o)
      asked h none e = unfold ask_servers in (h, e)
      asked h (some query) e =
          unfold ask_servers in
          let ips = first_answer (query_sync now tx_id send query) r.nameservers in
          inr (
            query,
            record {
              built = e;
              unheld = h;
              failover = first_answer-IsFailover (query_sync now tx_id send query) r.nameservers;
              same_servers = refl;
              cached = λ later lt.
                  ap (fresh later) (get-set (domain, qtype) (entry ips) r.cache)
                  ∙ fresh-new later ips lt;
              expired = λ later ge.
                  ap (fresh later) (get-set (domain, qtype) (entry ips) r.cache)
                  ∙ fresh-old later ips ge;
              others = λ key n. get-set_other (domain, qtype) key n (entry ips) r.cache;
            },
          )

      go :
          (o : Option (List Address))
          → held ≡ o
          → Resolves (resolve_cached now tx_id send r (domain, qtype) o)
      go (some ips) h = unfold resolve_cached in inl (h, refl)
      go none h = unfold resolve_cached in asked h (build_edns_query tx_id domain qtype) refl
