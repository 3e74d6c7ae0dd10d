-- ===== src/Dns/Reading.antt =====
-- A response to a query is read back as the addresses that it holds.
use helios_net.Prelude.{
  ℕ, suc, ◌+◌, ◌*◌, ◌/◌, ◌%◌, ◌≤◌, ◌<◌, ◌≡◌, refl, ap, ◌∙◌, Bool, true, false, not, ◌&&◌, ◌||◌,
  if◌then◌else◌, ◌==◌, leb, Option, none, some, List, [], ◌∷◌, ◌++◌, All, length, drop, drop-append,
  arith,
}
use helios_net.Prelude.Bytes.{Bytes, pack_u32}
use helios_net.Prelude.Text.{Text}
use helios_net.Dns.{
  pack_u16, qname, skip_questions, drop_to_zero, skip_owner, fixed_part, Address, add_address,
  read_fixed, read_answers, parse_response,
}
use helios_net.Dns.Question.{skip_name-qname}

-- The owner of an answer: a pointer, or a name whose bytes are given, without the zero behind them
pub data Owner : Type 0 where
  pointer : ℕ → ℕ → Owner
  name : Bytes → Owner

pub record Answer : Type 0 where
  pub owner : Owner
  pub rtype : ℕ
  pub rclass : ℕ
  pub ttl : ℕ
  pub rdata : Bytes

-- A pointer has its two bits set; a name has no zero within, and does not start as a pointer.
abbrev pub IsOwner : Owner → Type 0
IsOwner (pointer b c) = 192 ≤ b
IsOwner (name []) = Unit
IsOwner (name (b ∷ bs)) = (b < 192) × All (λ c. 0 < c) (b ∷ bs)

pub record IsAnswer (a : Answer) : Type 0 where
  pub owner_ok : IsOwner a.owner
  pub type_ok : a.rtype < 65536
  pub size_ok : length a.rdata < 65536

-- A message as the protocol lays it out, in front of what follows
abbrev pub put_owner : Owner → Bytes → Bytes
put_owner (pointer b c) rest = b ∷ c ∷ rest
put_owner (name bs) rest = bs ++ 0 ∷ rest

abbrev pub put_answer : Answer → Bytes → Bytes
put_answer a rest = put_owner a.owner (
    pack_u16 a.rtype
    ++ (pack_u16 a.rclass ++ (pack_u32 a.ttl ++ (pack_u16 (length a.rdata) ++ (a.rdata ++ rest)))))

abbrev pub put_answers : List Answer → Bytes → Bytes
put_answers [] rest = rest
put_answers (a ∷ answers) rest = put_answer a (put_answers answers rest)

-- The addresses of the records of type A
abbrev pub address_of : Bool → Bytes → List Address
address_of true (a ∷ b ∷ c ∷ d ∷ []) = (a, b, c, d) ∷ []
address_of _ _ = []

abbrev pub addresses : List Answer → List Address
addresses [] = []
addresses (a ∷ answers) = address_of (a.rtype == 1) a.rdata ++ addresses answers

drop_to_zero-over : (bs rest : Bytes) → All (λ b. 0 < b) bs → drop_to_zero (bs ++ 0 ∷ rest) ≡ rest
unfolding drop_to_zero
drop_to_zero-over [] rest h = refl
drop_to_zero-over (b ∷ bs) rest h = rw (not_zero b h.0) (drop_to_zero-over bs rest h.1)
  where
    not_zero : (n : ℕ) → 0 < n → (n == 0) ≡ false
    not_zero n k = ground (arith, k)

skip_owner-over : (o : Owner) (rest : Bytes) → IsOwner o → skip_owner (put_owner o rest) ≡ rest
unfolding skip_owner
skip_owner-over (pointer b c) rest h = rw (large b h) refl
  where
    large : (n : ℕ) → 192 ≤ n → leb 192 n ≡ true
    large n k = ground (arith, k)
skip_owner-over (name []) rest h = unfold drop_to_zero in refl
skip_owner-over (name (b ∷ bs)) rest h = rw (small b h.0) (drop_to_zero-over (b ∷ bs) rest h.1)
  where
    small : (n : ℕ) → n < 192 → leb 192 n ≡ false
    small n k = ground (arith, k)

unpack_u16 : (n : ℕ) → n < 65536 → n / 256 % 256 * 256 + n % 256 ≡ n
unpack_u16 n h = omega (arith, h)

-- One record is read.
read_answers-step :
    (n : ℕ) (bs : Bytes) (rtype rdlength : ℕ) (rest : Bytes)
    → fixed_part (skip_owner bs) ≡ some (rtype, rdlength, rest)
    → read_answers (suc n) bs
      ≡ add_address (rtype == 1 && rdlength == 4) rest (read_answers n (drop rdlength rest))
unfolding read_answers
read_answers-step n [] rtype rdlength rest e = absurd (clash (unfold skip_owner in e))
  where
    clash : ¬ (◌≡◌ {A = Option (ℕ × ℕ × Bytes)} none (some (rtype, rdlength, rest)))
    clash k = ground arith
read_answers-step n (b ∷ bs) rtype rdlength rest e = ap (read_fixed (read_answers n)) e

add_address-data :
    (is_a : Bool) (d rest : Bytes) (results : List Address)
    → add_address (is_a && length d == 4) (d ++ rest) results ≡ address_of is_a d ++ results
add_address-data false d rest results = refl
add_address-data true [] rest results = refl
add_address-data true (a ∷ []) rest results = refl
add_address-data true (a ∷ b ∷ []) rest results = refl
add_address-data true (a ∷ b ∷ c ∷ []) rest results = refl
add_address-data true (a ∷ b ∷ c ∷ d ∷ []) rest results = refl
add_address-data true (a ∷ b ∷ c ∷ d ∷ e ∷ bs) rest results = rw (longer (length bs)) refl
  where
    longer : (n : ℕ) → (suc (suc (suc (suc (suc n)))) == 4) ≡ false
    longer n = ground arith

read_answers-put :
    (answers : List Answer) (rest : Bytes)
    → All IsAnswer answers
    → read_answers (length answers) (put_answers answers rest) ≡ addresses answers
read_answers-put [] rest h = unfold read_answers in refl
read_answers-put (a ∷ answers) rest h =
    let behind = put_answers answers rest in
    let read : fixed_part (skip_owner (put_answer a behind))
        ≡ some (a.rtype, length a.rdata, a.rdata ++ behind) =
      ap fixed_part (skip_owner-over a.owner _ h.0.owner_ok)
      ∙ unfold pack_u16 pack_u32 in
        (rw (unpack_u16 a.rtype h.0.type_ok, unpack_u16 (length a.rdata) h.0.size_ok) refl) in
    read_answers-step (length answers) (put_answer a behind) a.rtype (length a.rdata)
      (a.rdata ++ behind) read
    ∙ ap
        (λ z.
          add_address (a.rtype == 1 && length a.rdata == 4) (a.rdata ++ behind)
            (read_answers (length answers) z))
        (drop-append a.rdata behind)
    ∙ ap (add_address (a.rtype == 1 && length a.rdata == 4) (a.rdata ++ behind))
        (read_answers-put answers rest h.1)
    ∙ add_address-data (a.rtype == 1) a.rdata behind (addresses answers)

-- A response: the transaction id, the flags, one question, the answers and two more counts; the
-- question with its type and class; the answers; and what stands behind them
pub record Header : Type 0 where
  pub tx_id : ℕ × ℕ
  pub flags : ℕ × ℕ
  pub counts : ℕ × ℕ × ℕ × ℕ
  pub question : ℕ × ℕ × ℕ × ℕ

abbrev pub respond : Header → Bytes → List Answer → Bytes → Bytes
respond h encoded answers rest =
    h.tx_id.0
    ∷ h.tx_id.1
    ∷ h.flags.0
    ∷ h.flags.1
    ∷ 0
    ∷ 1
    ∷ (pack_u16 (length answers)
        ++ (h.counts.0
            ∷ h.counts.1
            ∷ h.counts.2
            ∷ h.counts.3
            ∷ (encoded
                ++ (h.question.0
                    ∷ h.question.1
                    ∷ h.question.2
                    ∷ h.question.3
                    ∷ put_answers answers rest))))

-- A response without an error code, to the question for a name whose labels have less than 192 bytes,
-- is read as the addresses of its records of type A, in their order, whatever other records it has
-- and whatever follows; the owners are pointers or names without one.
pub parse_response-respond :
    (h : Header) (parts : List Text) (encoded : Bytes) (answers : List Answer) (rest : Bytes)
    → (h.flags.0 * 256 + h.flags.1) % 16 ≡ 0
    → All (λ part. length part < 192) parts
    → qname parts ≡ some encoded
    → All IsAnswer answers
    → length answers < 65536
    → parse_response (respond h encoded answers rest) ≡ addresses answers
unfolding parse_response pack_u16
parse_response-respond h parts encoded answers rest ok small e good few =
    rw (ok, unpack_u16 (length answers) few) (go answers good)
  where
    skipped :
        (as' : List Answer)
        → skip_questions 1 (
            encoded
            ++ (h.question.0 ∷ h.question.1 ∷ h.question.2 ∷ h.question.3 ∷ put_answers as' rest))
          ≡ put_answers as' rest
    skipped as' = unfold skip_questions in ap (drop 4) (skip_name-qname parts encoded _ small e)

    go :
        (as' : List Answer)
        → All IsAnswer as'
        → (if not (0 == 0) || length as' == 0
            then []
            else read_answers (length as') (
                skip_questions (0 * 256 + 1) (
                  encoded
                  ++ (h.question.0
                      ∷ h.question.1
                      ∷ h.question.2
                      ∷ h.question.3
                      ∷ put_answers as' rest))))
          ≡ addresses as'
    go [] g = refl
    go (a ∷ as') g = rw (some_of (length as')) (
        ap (read_answers (suc (length as'))) (skipped (a ∷ as'))
        ∙ read_answers-put (a ∷ as') rest g)
      where
        some_of : (n : ℕ) → (suc n == 0) ≡ false
        some_of n = ground arith
