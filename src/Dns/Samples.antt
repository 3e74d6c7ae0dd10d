-- ===== src/Dns/Samples.antt =====
-- A query for a name, and responses to it.
use helios_net.Prelude.{◌≡◌, refl, none, some, Option, if◌then◌else◌, List, [], ◌∷◌, ◌++◌, arith}
use helios_net.Prelude.Bytes.{Bytes, pack_u32}
use helios_net.Prelude.Text.{Text, codes, split_at, eqb_text}
use helios_net.Dns.{
  pack_u16, qname, build_edns_query, skip_name, skip_questions, drop_to_zero, skip_owner,
  read_answers, parse_response,
}
use helios_net.Dns.Resolve.{Resolver, new_resolver, resolve, Resolves, resolve-Resolves}
use helios_net.Dns.Reading.{
  Answer, pointer, name, Header, respond, addresses, parse_response-respond,
}

abbrev lab_qname : Bytes
lab_qname = 3 ∷ (codes "lab" ++ 4 ∷ (codes "test" ++ 0 ∷ []))

qname_lab : qname (split_at b'.' (codes "lab.test")) ≡ some lab_qname
unfolding qname split_at
qname_lab = refl

query_lab :
    build_edns_query 258 (codes "lab.test") 1
    ≡ some (
        (1 ∷ 2 ∷ 1 ∷ 0 ∷ 0 ∷ 1 ∷ 0 ∷ 0 ∷ 0 ∷ 0 ∷ 0 ∷ 1 ∷ [])
        ++ (lab_qname ++ (0 ∷ 1 ∷ 0 ∷ 1 ∷ 0 ∷ 0 ∷ 41 ∷ 16 ∷ 0 ∷ 0 ∷ 0 ∷ 0 ∷ 0 ∷ 0 ∷ 0 ∷ [])))
unfolding build_edns_query qname split_at pack_u16
query_lab = refl

-- A name that is not ASCII raises.
query_refused : build_edns_query 258 (200 ∷ []) 1 ≡ none
unfolding build_edns_query qname split_at
query_refused = refl

abbrev header : Header
header = record {
  tx_id = (1, 2);
  flags = (129, 128);
  counts = (0, 0, 0, 1);
  question = (0, 1, 0, 1);
}

-- An alias, and two addresses
abbrev answers : List Answer
answers =
    record { owner = pointer 192 12; rtype = 5; rclass = 1; ttl = 60; rdata = 192 ∷ 12 ∷ [] }
    ∷ record {
      owner = pointer 192 12;
      rtype = 1;
      rclass = 1;
      ttl = 60;
      rdata = 10 ∷ 0 ∷ 0 ∷ 7 ∷ [];
    }
    ∷ record {
      owner = name (3 ∷ codes "lab");
      rtype = 1;
      rclass = 1;
      ttl = 300;
      rdata = 10 ∷ 0 ∷ 0 ∷ 8 ∷ [];
    }
    ∷ []

addresses_lab : addresses answers ≡ (10, 0, 0, 7) ∷ (10, 0, 0, 8) ∷ []
addresses_lab = refl

-- A label in front of a pointer: the zero that ends the owner is looked for in the record behind it.
mixed_owner :
    parse_response (
      1
      ∷ 2
      ∷ 129
      ∷ 128
      ∷ 0
      ∷ 1
      ∷ 0
      ∷ 1
      ∷ 0
      ∷ 0
      ∷ 0
      ∷ 0
      ∷ (lab_qname
          ++ (0 ∷ 1 ∷ 0 ∷ 1 ∷ 3 ∷ b'w' ∷ b'w' ∷ b'w' ∷ 192 ∷ 12 ∷ 0 ∷ 1 ∷ 0 ∷ 1 ∷ 0 ∷ 0 ∷ 0 ∷ 60 ∷ 0
              ∷ 4 ∷ 10 ∷ 0 ∷ 0 ∷ 7 ∷ [])))
    ≡ []
unfolding parse_response read_answers skip_questions skip_name skip_owner drop_to_zero
mixed_owner = refl

parse_response-respond_example :
    parse_response (respond header lab_qname answers []) ≡ (10, 0, 0, 7) ∷ (10, 0, 0, 8) ∷ []
parse_response-respond_example =
    parse_response-respond header (split_at b'.' (codes "lab.test")) lab_qname answers [] refl
      (unfold split_at in (omega arith, (omega arith, tt))) qname_lab
      (
        record { owner_ok = omega arith; type_ok = omega arith; size_ok = omega arith },
        (
          record { owner_ok = omega arith; type_ok = omega arith; size_ok = omega arith },
          (
            record {
              owner_ok =
                  (omega arith, (omega arith, (omega arith, (omega arith, (omega arith, tt)))));
              type_ok = omega arith;
              size_ok = omega arith;
            },
            tt,
          ),
        ),
      )
      (omega arith)

-- The first server does not answer, the second one does.
abbrev small_send : Bytes → Text → Option Bytes
small_send query ns =
    if eqb_text ns (codes "1.1.1.1") then some (respond header lab_qname answers []) else none

abbrev lab_test : Text
lab_test = codes "lab.test"

abbrev lab_resolver : Resolver
lab_resolver = record (new_resolver []) {
  cache = ((lab_test, 1), record { expiry = 620; ips = (10, 0, 0, 7) ∷ (10, 0, 0, 8) ∷ [] }) ∷ [];
}

asks_second :
    resolve 500 258 small_send (new_resolver []) lab_test 1
    ≡ some ((10, 0, 0, 7) ∷ (10, 0, 0, 8) ∷ [], lab_resolver)
unfolding resolve new_resolver pack_u32
asks_second = refl

-- Nobody answers, and this is kept as well.
nobody :
    resolve 500 258 (λ query ns. none) (new_resolver []) lab_test 28
    ≡ some (
      [],
      record (new_resolver []) { cache = ((lab_test, 28), record { expiry = 620; ips = [] }) ∷ [] },
    )
unfolding resolve new_resolver
nobody = refl

from_cache :
    resolve 619 7 (λ query ns. none) lab_resolver lab_test 1
    ≡ some ((10, 0, 0, 7) ∷ (10, 0, 0, 8) ∷ [], lab_resolver)
unfolding resolve
from_cache = refl

resolve-Resolves_example :
    Resolves 620 258 small_send lab_resolver lab_test 1
      (resolve 620 258 small_send lab_resolver lab_test 1)
resolve-Resolves_example = resolve-Resolves 620 258 small_send lab_resolver lab_test 1
