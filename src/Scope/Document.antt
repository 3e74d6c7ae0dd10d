-- ===== src/Scope/Document.antt =====
-- `_parse_scope_yaml`, `_scalar` and `_validate_document` of core/scope.py, on the lines of a file.
use helios_net.Prelude.{
  ℕ, zero, suc, ◌+◌, ◌-◌, ◌*◌, Bool, true, false, not, ◌&&◌, ◌||◌, if◌then◌else◌, leb, ◌==◌, Option,
  none, some, List, [], ◌∷◌, ◌++◌, any, all, length, take, drop, ◌⊎◌, inl, inr,
}
use helios_net.Prelude.Int.{ℤ, pos, negsuc}
use helios_net.Prelude.Text.{
  Text, codes, eqb_text, is_space, drop_while, drop_while_end, starts_with, ends_with,
}
use helios_net.Scope.{strip}
use helios_net.Scope.Config.{Leaf, string, integer, is_empty}

-- What a `ScopeError` says of a line; `bad_int` is the `ValueError` of `int`.
pub data LineError : Type 0 where
  expected_scope duplicate_scope before_scope key_indent unsupported_key duplicate_key : LineError
  nested_indent expected_pair duplicate_nested expected_item item_indent item_before_key : LineError
  empty_value unterminated_quote bad_int missing_scope : LineError

-- The value of a run of decimal digits
unfoldable pub decimal : ℕ → Text → ℕ
decimal n [] = n
decimal n (c ∷ s) = decimal (n * 10 + (c - b'0')) s

abbrev pub is_digit : ℕ → Bool
is_digit c = leb b'0' c && leb c b'9'

-- `s.isdigit()`
unfoldable pub is_digits : Text → Bool
unfolding is_empty
is_digits s = not (is_empty s) && all is_digit s

unfoldable pub negated : ℕ → ℤ
negated zero = pos 0
negated (suc n) = negsuc n

-- `int(token)` where `token.lstrip("-").isdigit()`: one sign at most
unfoldable pub int_of : Text → LineError ⊎ Leaf
unfolding decimal is_digits negated
int_of [] = inl bad_int
int_of (c ∷ s) =
    if is_digit c
    then inr (integer (pos (decimal 0 (c ∷ s))))
    else if is_digits s
    then inr (integer (negated (decimal 0 s)))
    else inl bad_int

-- `token.split(" #", 1)[0]`
unfoldable pub before_comment : Text → Text
unfolding starts_with
before_comment [] = []
before_comment (c ∷ s) =
    let rest = before_comment s in if starts_with (c ∷ s) (codes " #") then [] else c ∷ rest

-- The rest of `_scalar` for a token that is not quoted
unfoldable pub plain_scalar : Text → LineError ⊎ Leaf
unfolding is_digits int_of drop_while
plain_scalar token =
    if is_digits (drop_while (λ c. c == b'-') token) then int_of token else inr (string token)

unfoldable pub quoted_scalar : ℕ → Text → LineError ⊎ Leaf
unfolding ends_with
quoted_scalar quote rest =
    if ends_with rest (quote ∷ [])
    then inr (string (take (length rest - 1) rest))
    else inl unterminated_quote

-- `_scalar`; the rest of a quoted token must hold the closing quote.
unfoldable pub scalar : Text → LineError ⊎ Leaf
unfolding before_comment plain_scalar quoted_scalar drop_while_end
scalar [] = inl empty_value
scalar (c ∷ s) =
    if c == b'"' || c == 39
    then quoted_scalar c s
    else plain_scalar (drop_while_end is_space (before_comment (c ∷ s)))

-- The keys of `_SCOPE_KEYS`
pub data Key : Type 0 where
  domains cidrs ports rate_limit : Key

unfoldable pub key_of : Text → Option Key
key_of s =
    if eqb_text s (codes "domains")
    then some domains
    else if eqb_text s (codes "cidrs")
    then some cidrs
    else if eqb_text s (codes "ports")
    then some ports
    else if eqb_text s (codes "rate_limit")
    then some rate_limit
    else none

-- `body`; a key that is not in it is `none`.
pub record Body : Type 0 where
  pub domain_items : Option (List Leaf)
  pub cidr_items : Option (List Leaf)
  pub port_items : Option (List Leaf)
  pub rates : Option (List (Text × Leaf))

pub record Parse : Type 0 where
  pub seen_scope : Bool
  pub body : Body
  pub current : Option Key

abbrev pub Parsed : Type 0
Parsed = LineError ⊎ Parse

-- `if key in body`, else `body[key] = ...`
unfoldable pub open_list : Option (List Leaf) → (Option (List Leaf) → Parse) → Parsed
open_list (some items) next = inl duplicate_key
open_list none next = inr (next (some []))

unfoldable pub open_nested : Option (List (Text × Leaf)) → Parse → Parsed
open_nested (some rates) next = inl duplicate_key
open_nested none next = inr next

unfoldable pub open_key : Parse → Option Key → Parsed
unfolding open_list open_nested
open_key p none = inl unsupported_key
open_key p (some domains) =
    open_list p.body.domain_items
      (λ l. record p { body = record p.body { domain_items = l }; current = some domains })
open_key p (some cidrs) =
    open_list p.body.cidr_items
      (λ l. record p { body = record p.body { cidr_items = l }; current = some cidrs })
open_key p (some ports) =
    open_list p.body.port_items
      (λ l. record p { body = record p.body { port_items = l }; current = some ports })
open_key p (some rate_limit) =
    open_nested p.body.rates
      (record p { body = record p.body { rates = some [] }; current = some rate_limit })

-- `stripped.partition(":")`, `none` without a separator
unfoldable pub partition_colon : Text → Option (Text × Text)
partition_colon [] = none
partition_colon (c ∷ s) =
    let rest = partition_colon s in
    if c == b':'
    then some ([], s)
    else elim rest [ none ↦ none | some (sub, value) ↦ some (c ∷ sub, value) ]

unfoldable pub push_rate : Parse → Text → LineError ⊎ Leaf → Parsed
push_rate p sub (inl err) = inl err
push_rate p sub (inr leaf) = elim p.body.rates [
  | none ↦ inr (record p { body = record p.body { rates = some ((sub, leaf) ∷ []) } })
  | some rates ↦
      inr (record p { body = record p.body { rates = some (rates ++ (sub, leaf) ∷ []) } })
]

abbrev pub has_rate : Option (List (Text × Leaf)) → Text → Bool
has_rate none sub = false
has_rate (some rates) sub = any (λ e. eqb_text sub e.0) rates

unfoldable pub nested_pair : Parse → Option (Text × Text) → Parsed
unfolding push_rate scalar strip is_empty
nested_pair p none = inl expected_pair
nested_pair p (some (sub, value)) =
    if is_empty (strip sub)
    then inl expected_pair
    else if has_rate p.body.rates (strip sub)
    then inl duplicate_nested
    else push_rate p (strip sub) (scalar (strip value))

unfoldable pub snoc_item : Option (List Leaf) → Leaf → Option (List Leaf)
snoc_item none leaf = some (leaf ∷ [])
snoc_item (some items) leaf = some (items ++ leaf ∷ [])

-- `body[current].append(...)`
unfoldable pub push_item : Parse → Option Key → LineError ⊎ Leaf → Parsed
unfolding snoc_item
push_item p none leaf = inl item_before_key
push_item p (some key) (inl err) = inl err
push_item p (some domains) (inr leaf) =
    inr (record p { body = record p.body { domain_items = snoc_item p.body.domain_items leaf } })
push_item p (some cidrs) (inr leaf) =
    inr (record p { body = record p.body { cidr_items = snoc_item p.body.cidr_items leaf } })
push_item p (some ports) (inr leaf) =
    inr (record p { body = record p.body { port_items = snoc_item p.body.port_items leaf } })
push_item p (some rate_limit) (inr leaf) = inr p

abbrev pub is_nested : Option Key → Bool
is_nested none = false
is_nested (some domains) = false
is_nested (some cidrs) = false
is_nested (some ports) = false
is_nested (some rate_limit) = true

-- The rest of the loop's body for a line under `scope:`
unfoldable pub parse_entry : Parse → ℕ → Text → Parsed
unfolding open_key key_of partition_colon nested_pair push_item scalar strip starts_with ends_with
parse_entry p indent stripped =
    if ends_with stripped (codes ":")
    then if not (indent == 2)
      then inl key_indent
      else open_key p (key_of (strip (take (length stripped - 1) stripped)))
    else if is_nested p.current
    then if not (indent == 4) then inl nested_indent else nested_pair p (partition_colon stripped)
    else if not (starts_with stripped (codes "- "))
    then inl expected_item
    else if not (indent == 4)
    then inl item_indent
    else push_item p p.current (scalar (strip (drop 2 stripped)))

-- The body of the loop for one line
unfoldable pub parse_line : Parse → Text → Parsed
unfolding parse_entry drop_while_end drop_while strip is_empty starts_with
parse_line p raw =
    let line = drop_while_end is_space raw in
    let stripped = strip line in
    let indent = length line - length (drop_while (λ c. c == b' ') line) in
    if is_empty stripped || starts_with stripped (codes "#")
    then inr p
    else if indent == 0
    then if not (eqb_text stripped (codes "scope:"))
      then inl expected_scope
      else if p.seen_scope
      then inl duplicate_scope
      else inr (record p { seen_scope = true })
    else if not p.seen_scope
    then inl before_scope
    else parse_entry p indent stripped

unfoldable pub then_parse : Parsed → (Parse → LineError ⊎ Body) → LineError ⊎ Body
then_parse (inl err) continue = inl err
then_parse (inr p) continue = continue p

unfoldable pub parse_lines : List Text → Parse → LineError ⊎ Body
unfolding then_parse parse_line
parse_lines [] p = if p.seen_scope then inr p.body else inl missing_scope
parse_lines (raw ∷ lines) p = then_parse (parse_line p raw) (parse_lines lines)

-- `_parse_scope_yaml`, of the lines of the text
unfoldable pub parse_scope_yaml : List Text → LineError ⊎ Body
unfolding parse_lines
parse_scope_yaml lines = parse_lines lines (record {
  seen_scope = false;
  body = record { domain_items = none; cidr_items = none; port_items = none; rates = none };
  current = none;
})
