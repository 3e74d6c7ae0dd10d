-- ===== src/Scope/Load/Samples.antt =====
-- A scope file that is loaded, and some that are not.
use helios_net.Prelude.{◌≡◌, refl, List, [], ◌∷◌, inl}
use helios_net.Prelude.Int.{pos}
use helios_net.Prelude.Text.{Text, codes}
use helios_net.Scope.Config.{wildcard}
use helios_net.Scope.Document.{bad_int, before_scope}
use helios_net.Scope.Load.{ScopeConfig, bad_line, bad_list, bad_rate, negative_rate, load_scope}

abbrev lines : List Text
lines =
    codes "# the range of the engagement"
    ∷ codes "scope:"
    ∷ codes "  domains:"
    ∷ codes "    - \"Example.test.\"  "
    ∷ codes "  ports:"
    ∷ codes "    - 80 # web"
    ∷ codes "  rate_limit:"
    ∷ codes "    per_second: 5"
    ∷ []

abbrev config : ScopeConfig
config = record { domains = codes "example.test" ∷ []; cidrs = []; ports = pos 80 ∷ [] }

wildcard_refused :
    load_scope (codes "scope:" ∷ codes "  domains:" ∷ codes "    - *" ∷ [])
    ≡ inl (bad_list wildcard)
unfolding load_scope
wildcard_refused = refl

two_signs :
    load_scope (codes "scope:" ∷ codes "  ports:" ∷ codes "    - --5" ∷ []) ≡ inl (bad_line bad_int)
unfolding load_scope
two_signs = refl

negative_refused :
    load_scope (codes "scope:" ∷ codes "  rate_limit:" ∷ codes "    n: -1" ∷ [])
    ≡ inl (bad_rate negative_rate)
unfolding load_scope
negative_refused = refl

entry_first : load_scope (codes "  ports:" ∷ []) ≡ inl (bad_line before_scope)
unfolding load_scope
entry_first = refl
