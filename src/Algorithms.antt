-- ===== src/Algorithms.antt =====
-- engine/algorithms/__init__.py: the registry of algorithms by kind and name.
use helios_net.Prelude.{Bool, ◌⊎◌, inl, inr, if◌then◌else◌, Option, none, some, List, [], ◌∷◌, map}
use helios_net.Prelude.Sort.{sort_by}
use helios_net.Prelude.Text.{Text, eqb_text, le_text, codes}

-- `AlgorithmError`, with the kind that its message names
pub data AlgorithmError : Type 0 where
  no_class : Text → AlgorithmError

-- A dictionary by its keys, in the order of insertion
abbrev pub Dict : Type 0 → Type 0
Dict A = List (Text × A)

module _ {A : Type 0} where
  unfoldable pub get : Text → Dict A → Option A
  get key [] = none
  get key ((k, a) ∷ dict) = let rest = get key dict in if eqb_text key k then some a else rest

  unfoldable pub set : Text → A → Dict A → Dict A
  set key a [] = (key, a) ∷ []
  set key a ((k, b) ∷ dict) =
      let rest = set key a dict in if eqb_text key k then (k, a) ∷ dict else (k, b) ∷ rest

-- `DEFAULT_FALLBACK`
abbrev pub default_fallback : Text
default_fallback = codes "__default__"

module _ {F : Type 0} where
  -- `dict.setdefault(kind, {})`
  unfoldable pub bucket_of : Option (Dict F) → Dict F
  bucket_of none = []
  bucket_of (some bucket) = bucket

  unfoldable pub register_algo : Dict (Dict F) → Text → Text → F → Bool → Dict (Dict F)
  unfolding get set bucket_of
  register_algo registry kind name factory default =
      let bucket = set name factory (bucket_of (get kind registry)) in
      set kind (if default then set default_fallback factory bucket else bucket) registry

  -- `bucket[DEFAULT_FALLBACK]`, or the first of the bucket
  unfoldable pub or_first : Text → Dict F → Option F → AlgorithmError ⊎ F
  or_first kind bucket (some factory) = inr factory
  or_first kind [] none = inl (no_class kind)
  or_first kind ((name, factory) ∷ bucket) none = inr factory

  unfoldable pub or_fallback : Text → Dict F → Option F → AlgorithmError ⊎ F
  unfolding or_first get
  or_fallback kind bucket (some factory) = inr factory
  or_fallback kind bucket none = or_first kind bucket (get default_fallback bucket)

  -- `bucket[name]` for a name that is there and not empty
  unfoldable pub named : Option Text → Dict F → Option F
  unfolding get
  named none bucket = none
  named (some []) bucket = none
  named (some (c ∷ name)) bucket = get (c ∷ name) bucket

  unfoldable pub get_algo : Dict (Dict F) → Text → Option Text → AlgorithmError ⊎ F
  unfolding bucket_of get or_fallback named
  get_algo registry kind name =
      let bucket = bucket_of (get kind registry) in or_fallback kind bucket (named name bucket)

  unfoldable pub list_algos : Dict (Dict F) → Option Text → Dict (List Text)
  unfolding sort_by le_text bucket_of get
  list_algos registry none =
      map (λ entry. (entry.0, sort_by le_text (map (λ algo. algo.0) entry.1))) registry
  list_algos registry (some kind) =
      (kind, sort_by le_text (map (λ algo. algo.0) (bucket_of (get kind registry)))) ∷ []
