-- ===== src/Dns.antt =====
-- modules/discovery/dns_resolver.py: the message that is sent, and the one that is read.
pub mod Question
pub mod Resolve
pub mod Reading
pub mod Samples
use helios_net.Prelude.{
  ℕ, zero, suc, ◌+◌, ◌*◌, ◌/◌, ◌%◌, Bool, true, false, not, ◌&&◌, ◌||◌, if◌then◌else◌, ◌==◌, leb,
  ltb, Option, none, some, List, [], ◌∷◌, ◌++◌, all, length, drop,
}
use helios_net.Prelude.Bytes.{Bytes}
use helios_net.Prelude.Text.{Text, split_at, eqb_text}

-- `struct.pack("!H", n)` for a number of 16 bits
unfoldable pub pack_u16 : ℕ → Bytes
pack_u16 n = (n / 256 % 256) ∷ (n % 256) ∷ []

-- What `append(len(part))` and `encode("ascii")` take without an exception
abbrev pub is_encodable : Text → Bool
is_encodable part = leb (length part) 255 && all (λ c. ltb c 128) part

-- A part of the name in front of the rest
abbrev pub put_part : Text → Option Bytes → Option Bytes
put_part part none = none
put_part part (some rest) = some (length part ∷ (part ++ rest))

-- The loop over the parts; `none` is an exception.
unfoldable pub qname : List Text → Option Bytes
qname [] = some (0 ∷ [])
qname ([] ∷ parts) = qname parts
qname ((c ∷ part) ∷ parts) =
    let rest = qname parts in if is_encodable (c ∷ part) then put_part (c ∷ part) rest else none

abbrev pub put_query : ℕ → ℕ → Option Bytes → Option Bytes
put_query tx_id qtype none = none
put_query tx_id qtype (some name) = some (
    pack_u16 tx_id
    ++ (1
        ∷ 0
        ∷ 0
        ∷ 1
        ∷ 0
        ∷ 0
        ∷ 0
        ∷ 0
        ∷ 0
        ∷ 1
        ∷ (name ++ (pack_u16 qtype ++ (0 ∷ 1 ∷ 0 ∷ 0 ∷ 41 ∷ 16 ∷ 0 ∷ 0 ∷ 0 ∷ 0 ∷ 0 ∷ 0 ∷ 0 ∷ [])))))

-- `_build_edns_query` with the transaction id that is drawn
unfoldable pub build_edns_query : ℕ → Text → ℕ → Option Bytes
unfolding pack_u16 qname split_at
build_edns_query tx_id domain qtype =
    if ltb 65535 qtype then none else put_query tx_id qtype (qname (split_at b'.' domain))

-- The position in the data is the data from there on, which is empty at the end and behind it. This is
-- the `while` loop over the labels of a question, with what is left of a label.
unfoldable pub skip_name : ℕ → Bytes → Bytes
skip_name left [] = []
skip_name (suc left) (b ∷ bs) = skip_name left bs
skip_name zero (length ∷ bs) =
    let rest = skip_name length bs in
    if length == 0 then bs else if leb 192 length then drop 1 bs else rest

unfoldable pub skip_questions : ℕ → Bytes → Bytes
unfolding skip_name
skip_questions zero bs = bs
skip_questions (suc qdcount) bs = skip_questions qdcount (drop 4 (skip_name 0 bs))

unfoldable pub drop_to_zero : Bytes → Bytes
drop_to_zero [] = []
drop_to_zero (b ∷ bs) = let rest = drop_to_zero bs in if b == 0 then bs else rest

-- The owner of an answer; `(b & 0xC0) == 0xC0` of a byte says that it is 192 or more.
unfoldable pub skip_owner : Bytes → Bytes
unfolding drop_to_zero
skip_owner [] = []
skip_owner (b ∷ bs) = if leb 192 b then drop 1 bs else drop_to_zero (b ∷ bs)

-- The ten bytes behind the owner: the type, the length of the data, and what stands behind them
abbrev pub fixed_part : Bytes → Option (ℕ × ℕ × Bytes)
fixed_part (t ∷ u ∷ c ∷ d ∷ e ∷ f ∷ g ∷ h ∷ l ∷ m ∷ bs) = some (t * 256 + u, l * 256 + m, bs)
fixed_part _ = none

-- The four numbers of an address, which the code prints with dots
abbrev pub Address : Type 0
Address = ℕ × ℕ × ℕ × ℕ

abbrev pub add_address : Bool → Bytes → List Address → List Address
add_address true (a ∷ b ∷ c ∷ d ∷ bs) results = (a, b, c, d) ∷ results
add_address _ _ results = results

-- An answer behind its owner, and the answers that `next` reads
abbrev pub read_fixed : (Bytes → List Address) → Option (ℕ × ℕ × Bytes) → List Address
read_fixed next none = []
read_fixed next (some (rtype, rdlength, bs)) =
    add_address (rtype == 1 && rdlength == 4) bs (next (drop rdlength bs))

-- The loop over the answers
unfoldable pub read_answers : ℕ → Bytes → List Address
unfolding skip_owner
read_answers zero bs = []
read_answers (suc ancount) [] = []
read_answers (suc ancount) (b ∷ bs) =
    read_fixed (read_answers ancount) (fixed_part (skip_owner (b ∷ bs)))

-- `_parse_response`
unfoldable pub parse_response : Bytes → List Address
unfolding read_answers skip_questions
parse_response (i ∷ j ∷ f ∷ g ∷ q ∷ r ∷ a ∷ b ∷ k ∷ l ∷ m ∷ n ∷ bs) =
    let ancount = a * 256 + b in
    if not ((f * 256 + g) % 16 == 0) || ancount == 0
    then []
    else read_answers ancount (skip_questions (q * 256 + r) bs)
parse_response _ = []

-- The loop of `resolve` over the servers, with what each answers, an `OSError` being no address
unfoldable pub first_answer : (Text → List Address) → List Text → List Address
first_answer ask [] = []
first_answer ask (ns ∷ nameservers) = elim (ask ns) [
  | [] ↦ first_answer ask nameservers
  | ip ∷ ips ↦ ip ∷ ips
]
