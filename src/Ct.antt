-- ===== src/Ct.antt =====
-- modules/discovery/ct.py: names out of the answers of Certificate Transparency logs.
pub mod Safe
pub mod Names
pub mod Samples
use helios_net.Prelude.{
  ℕ, Bool, true, false, not, ◌&&◌, ◌||◌, if◌then◌else◌, ◌==◌, leb, ltb, Option, none, some, List,
  [], ◌∷◌, ◌++◌, all, any, length,
}
use helios_net.Prelude.Sort.{sort_by}
use helios_net.Prelude.Text.{Text, codes, le_text, split_at}
use helios_net.Prelude.Eq.{text_eq}
use helios_net.Prelude.Sets.{set_add}
use helios_net.Scope.{normalise}

-- `[a-z0-9]`
abbrev pub is_alnum : ℕ → Bool
is_alnum c = leb b'a' c && leb c b'z' || leb b'0' c && leb c b'9'

-- `[a-z0-9-]`
abbrev pub is_label_char : ℕ → Bool
is_label_char c = is_alnum c || c == b'-'

-- What stands behind the first character of a label: nothing, or characters of which the last is a
-- letter or a digit
abbrev pub ends_label : Text → Bool
ends_label [] = true
ends_label (c ∷ []) = is_alnum c
ends_label (c ∷ d ∷ s) = is_label_char c && ends_label (d ∷ s)

-- `_LABEL`
unfoldable pub is_label : Text → Bool
is_label [] = false
is_label (c ∷ s) = is_alnum c && leb (length s) 62 && ends_label s

-- `_HOST_RE.fullmatch(name)`: two labels or more, with dots between them
unfoldable pub is_host : Text → Bool
unfolding is_label split_at
is_host name = let labels = split_at b'.' name in ltb 1 (length labels) && all is_label labels

unfoldable pub is_valid_hostname : Text → Bool
unfolding is_host
is_valid_hostname name = is_host name && leb (length name) 253

-- `name[2:]` of a wildcard
unfoldable pub without_wildcard : Text → Text
without_wildcard (a ∷ b ∷ s) = if a == b'*' && b == b'.' then s else a ∷ b ∷ s
without_wildcard s = s

unfoldable pub valid_name : Text → Option Text
unfolding is_valid_hostname
valid_name name = if is_valid_hostname name then some name else none

-- `normalise_name`; an empty name is no hostname.
unfoldable pub normalise_name : Text → Option Text
unfolding normalise without_wildcard valid_name
normalise_name raw = valid_name (without_wildcard (normalise raw))

-- What `json.loads` returns, as far as it is read: `name_value` of an object, which may be missing,
-- and the items of a list
pub data NameItem : Type 0 where
  text_item : Text → NameItem
  other_item : NameItem

pub data Value : Type 0 where
  text_value : Text → Value
  list_value : List NameItem → Value
  other_value : Value

pub data Entry : Type 0 where
  object : Value → Entry
  no_object : Entry

pub data CtDocument : Type 0 where
  dict_document : Value → CtDocument
  list_document : List Entry → CtDocument
  other_document : CtDocument

unfoldable pub text_items : List NameItem → List Text
text_items [] = []
text_items (text_item s ∷ items) = s ∷ text_items items
text_items (other_item ∷ items) = text_items items

unfoldable pub candidates_of : Value → List Text
unfolding split_at text_items
candidates_of (text_value value) = split_at 10 value
candidates_of (list_value items) = text_items items
candidates_of other_value = []

-- `names.add(name)`
unfoldable pub add_name : Option Text → List Text → List Text
unfolding set_add
add_name none names = names
add_name (some name) names = set_add names name

unfoldable pub add_candidates : List Text → List Text → List Text
unfolding add_name normalise_name
add_candidates [] names = names
add_candidates (candidate ∷ rest) names =
    add_candidates rest (add_name (normalise_name candidate) names)

unfoldable pub add_entries : List Entry → List Text → List Text
unfolding add_candidates candidates_of
add_entries [] names = names
add_entries (object value ∷ entries) names =
    add_entries entries (add_candidates (candidates_of value) names)
add_entries (no_object ∷ entries) names = add_entries entries names

unfoldable pub entries_of : CtDocument → List Entry
entries_of (dict_document value) = object value ∷ []
entries_of (list_document entries) = entries
entries_of other_document = []

-- `parse_ct_payload` of the text of a payload, with `json.loads`, which is `none` where it raises
unfoldable pub parse_document : Option CtDocument → List Text
unfolding add_entries entries_of sort_by le_text
parse_document none = []
parse_document (some document) = sort_by le_text (add_entries (entries_of document) [])

unfoldable pub parse_ct_payload : (Text → Option CtDocument) → Text → List Text
unfolding parse_document
parse_ct_payload loads text = parse_document (loads text)

-- `fetch_ct_names`, with the fetcher, which is `none` where it raises, and whether a name is a literal
-- address
unfoldable pub fetched : (Text → Option CtDocument) → Option Text → List Text
unfolding parse_ct_payload
fetched loads none = []
fetched loads (some text) = parse_ct_payload loads text

-- `CRTSH_URL.format(domain=name)`
abbrev pub crtsh_url : Text → Text
crtsh_url name = codes "https://crt.sh/?q=%25." ++ name ++ codes "&output=json"

unfoldable pub fetch_name :
    (Text → Option CtDocument) → (Text → Bool) → (Text → Option Text) → Option Text → List Text
unfolding fetched
fetch_name loads is_address fetch none = []
fetch_name loads is_address fetch (some name) =
    if is_address name then [] else fetched loads (fetch (crtsh_url name))

unfoldable pub fetch_ct_names :
    (Text → Option CtDocument) → (Text → Bool) → (Text → Option Text) → Text → List Text
unfolding fetch_name normalise_name
fetch_ct_names loads is_address fetch domain =
    fetch_name loads is_address fetch (normalise_name domain)
