-- ===== src/Dns/Question.antt =====
-- The question of a message is passed over.
use helios_net.Prelude.{
  ℕ, suc, ◌<◌, ◌≡◌, refl, ap, subst, ◌∙◌, inl, inr, false, ◌==◌, leb, Option, none, some, List, [],
  ◌∷◌, ◌++◌, append_assoc, All, length, Bool-cases, arith,
}
use helios_net.Prelude.Bytes.{Bytes}
use helios_net.Prelude.Text.{Text}
use helios_net.Dns.{is_encodable, put_part, qname, skip_name}

skip_name-over : (part rest : Bytes) → skip_name (length part) (part ++ rest) ≡ skip_name 0 rest
unfolding skip_name
skip_name-over [] rest = refl
skip_name-over (b ∷ part) rest = skip_name-over part rest

-- A label of less than 192 bytes is passed over.
skip_name-part :
    (c : ℕ) (part rest : Bytes)
    → length (c ∷ part) < 192
    → skip_name 0 (length (c ∷ part) ∷ ((c ∷ part) ++ rest)) ≡ skip_name 0 rest
unfolding skip_name
skip_name-part c part rest h =
    rw (not_zero (length part), small (length (c ∷ part)) h) (skip_name-over (c ∷ part) rest)
  where
    not_zero : (n : ℕ) → (suc n == 0) ≡ false
    not_zero n = ground arith

    small : (n : ℕ) → n < 192 → leb 192 n ≡ false
    small n k = ground (arith, k)

-- The name that a query asks for is passed over.
pub skip_name-qname :
    (parts : List Text) (encoded rest : Bytes)
    → All (λ part. length part < 192) parts
    → qname parts ≡ some encoded
    → skip_name 0 (encoded ++ rest) ≡ rest
unfolding qname
skip_name-qname [] encoded rest h e =
    let same : 0 ∷ [] ≡ encoded = cc e in
    subst (λ z. skip_name 0 (z ++ rest) ≡ rest) same (unfold skip_name in refl)
skip_name-qname ([] ∷ parts) encoded rest h e = skip_name-qname parts encoded rest h.1 e
skip_name-qname ((c ∷ part) ∷ parts) encoded rest h e =
    elim (Bool-cases (is_encodable (c ∷ part))) [
      | inl f ↦ go (qname parts) (λ tail. skip_name-qname parts tail rest h.1) (rw f at e)
      | inr f ↦ absurd (clash (rw f at e))
    ]
  where
    clash : ¬ (none ≡ some encoded)
    clash k = ground arith

    go :
        (o : Option Bytes)
        → ((tail : Bytes) → o ≡ some tail → skip_name 0 (tail ++ rest) ≡ rest)
        → put_part (c ∷ part) o ≡ some encoded
        → skip_name 0 (encoded ++ rest) ≡ rest
    go none rec k = absurd (clash k)
    go (some tail) rec k =
        let same : length (c ∷ part) ∷ ((c ∷ part) ++ tail) ≡ encoded = cc k in
        subst (λ z. skip_name 0 (z ++ rest) ≡ rest) same
          (ap (λ z. skip_name 0 (length (c ∷ part) ∷ z)) (append_assoc (c ∷ part) tail rest)
            ∙ skip_name-part c part (tail ++ rest) h.0
            ∙ rec tail refl)
