-- ===== src/Signing/RoundTrip.antt =====
-- What `sign` signs, `verify_signature` accepts.
use mathlib.Core.List.{append-nil, append_assoc}
use agent_runs.Base.{
  ℕ, ◌≡◌, ap, ◌∙◌, String, Bool, true, false, ◌&&◌, ◌||◌, Option, none, some, List, [], ◌∷◌, ◌++◌,
  map, arith, refl, str_eq, contains, eq_iff, leb, Bool-cases, inl, inr,
}
use agent_runs.Signing.{
  Text, comma, equals, letter_t, is_empty, is_digit, all_pass, print_number, is_space, join_parts,
  behind_part, version_part, keys_of, signed_text, sign, Reading, read_parts, read_header, gap,
  any_eq, accepts, verify_signature,
}
use agent_runs.Signing.Numerals.{print_number-digits, print_number-number, read-print_number}
use agent_runs.Signing.Headers.{
  is_plain, no_comma, text_eq_refl, all_pass_weaken, all_apart, split-join_parts, read_part-stamp,
  read_part-digest, behind_part-found,
}

abbrev pub is_hex : ℕ → Bool
is_hex c = is_digit c || (leb 97 c && leb c 102)

-- What `hexdigest` documents: a digest is a text of hexadecimal digits, and not empty.
pub record IsHexMac (mac : String → Text → Text) : Type 0 where
  pub hex : (key : String) (text : Text) → all_pass is_hex (mac key text) ≡ true
  pub nonempty : (key : String) (text : Text) → is_empty (mac key text) ≡ false

hex_plain : (c : ℕ) → is_hex c ≡ true → is_plain c ≡ true
unfolding is_plain is_space
hex_plain c h = ground arith

digit_plain : (c : ℕ) → is_digit c ≡ true → is_plain c ≡ true
digit_plain c h = hex_plain c (ground arith)

plain_apart : (c : ℕ) → is_plain c ≡ true → no_comma c ≡ true
unfolding is_plain
plain_apart c h = ground arith

number-plain : (n : ℕ) → all_pass is_plain (print_number n) ≡ true
number-plain n =
    all_pass_weaken is_digit is_plain (print_number n) digit_plain (print_number-digits n)

module _ (mac : String → Text → Text) (law : IsHexMac mac) (signed : Text) where
  digest-plain : (key : String) → all_pass is_plain (mac key signed) ≡ true
  digest-plain key = all_pass_weaken is_hex is_plain (mac key signed) hex_plain (law.hex key signed)

  digests-apart :
      (keys : List String) → all_apart (map (λ key. version_part (mac key signed)) keys) ≡ true
  digests-apart [] = refl
  digests-apart (key ∷ keys) =
      let one = all_pass_weaken is_plain no_comma (mac key signed) plain_apart (digest-plain key) in
      ground (arith, one, digests-apart keys)

  read_parts-digests :
      (reading : Reading) (keys : List String)
      → read_parts reading (map (λ key. version_part (mac key signed)) keys)
        ≡ record reading { digests = reading.digests ++ map (λ key. mac key signed) keys }
  unfolding read_parts
  read_parts-digests reading [] = rw (append-nil reading.digests) refl
  read_parts-digests reading (key ∷ keys) =
      let more : Reading = record reading { digests = reading.digests ++ (mac key signed ∷ []) } in
      ap (λ r. read_parts r (map (λ k. version_part (mac k signed)) keys))
        (read_part-digest reading (mac key signed) (digest-plain key) (law.nonempty key signed))
      ∙ read_parts-digests more keys
      ∙ ap {B = Reading} (λ digests. record reading { digests = digests })
          (append_assoc reading.digests (mac key signed ∷ []) (map (λ k. mac k signed) keys))

  any_eq-key :
      (key : String) (keys : List String)
      → contains key keys ≡ true
      → any_eq (mac key signed) (map (λ k. mac k signed) keys) ≡ true
  any_eq-key key [] there = absurd (ground arith)
  any_eq-key key (k ∷ keys) there = elim (Bool-cases (str_eq key k)) [
    | inl t ↦
        let same : key ≡ k = (eq_iff key k).0 t in rw same (rw (text_eq_refl (mac k signed)) refl)
    | inr f ↦ ground (arith, any_eq-key key keys (ground arith))
  ]

module _ (mac : String → Text → Text) (law : IsHexMac mac) (secret : String) (timestamp : ℕ)
    (body : Text) where
  number-apart : all_pass no_comma (letter_t ∷ equals ∷ print_number timestamp) ≡ true
  number-apart =
      all_pass_weaken is_plain no_comma (print_number timestamp) plain_apart
        (number-plain timestamp)

  -- What a signature's header reads as.
  read_header-sign :
      (previous : Option String)
      → read_header (some (sign mac secret timestamp body previous)) ≡ record {
        stamp = print_number timestamp;
        digests = map (λ key. mac key (signed_text timestamp body)) (keys_of secret previous);
      }
  unfolding read_header sign read_parts
  read_header-sign previous =
      let start : Reading = record { stamp = []; digests = [] } in
      let keys = keys_of secret previous in
      let signed = signed_text timestamp body in
      let parts = map (λ key. version_part (mac key signed)) keys in
      let number = print_number timestamp in
      ap (read_parts start) (
        split-join_parts (letter_t ∷ equals ∷ number) parts number-apart
          (digests-apart mac law signed keys))
      ∙ ap (λ r. read_parts r parts) (read_part-stamp start number (number-plain timestamp))
      ∙ read_parts-digests mac law signed (record { stamp = number; digests = [] }) keys

  -- The digest the receiver expects.
  expected-sign :
      behind_part (comma ∷ version_part []) (sign mac secret timestamp body none)
      ≡ mac secret (signed_text timestamp body)
  unfolding sign join_parts
  expected-sign = rw (append-nil (mac secret (signed_text timestamp body))) (
      behind_part-found (letter_t ∷ equals ∷ print_number timestamp)
        (mac secret (signed_text timestamp body)) number-apart)

some_digest :
    (mac : String → Text → Text) (signed : Text) (secret : String) (previous : Option String)
    → is_empty (map (λ key. mac key signed) (keys_of secret previous)) ≡ false
some_digest mac signed secret none = refl
some_digest mac signed secret (some replaced) = refl

-- A header that `sign` made, with a replaced secret beside the current one or without, is accepted with
-- either of the secrets it was signed with exactly while its timestamp is at most the tolerance away
-- from the receiver's clock, where a digest is a text of hexadecimal digits that is not empty.
pub verify_signature-sign :
    (mac : String → Text → Text) (secret key : String) (previous : Option String) (timestamp : ℕ)
    (body : Text) (now tolerance : ℕ)
    → IsHexMac mac
    → contains key (keys_of secret previous) ≡ true
    → verify_signature mac key (some (sign mac secret timestamp body previous)) body now tolerance
      ≡ leb (gap now timestamp) tolerance
unfolding verify_signature accepts
verify_signature-sign mac secret key previous timestamp body now tolerance law signs =
    let signed = signed_text timestamp body in
    let matched = any_eq-key mac law signed key (keys_of secret previous) signs in
    rw
      (
        read_header-sign mac law secret timestamp body previous,
        print_number-number timestamp,
        some_digest mac signed secret previous,
        read-print_number timestamp,
        expected-sign mac law key timestamp body,
        matched,
      )
      (ground arith)
