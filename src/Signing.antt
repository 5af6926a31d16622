-- ===== src/Signing.antt =====
-- The signatures of webhooks: `sign` and `verify_signature` of sdk/python/src/trellis/runs/webhooks.py,
-- with which the service signs and a receiver checks. A text is the list of its characters' code points.
-- The keyed digest (HMAC-SHA256 in hexadecimal) is given, as a function of the key and what is signed.
pub mod Numerals
pub mod Headers
pub mod RoundTrip
use agent_runs.Base.{
  ℕ, zero, suc, ◌+◌, ◌-◌, ◌*◌, ◌/◌, ◌%◌, String, Bool, true, false, not, ◌&&◌, ◌||◌, Option, none,
  some, List, [], ◌∷◌, ◌++◌, map, ltb, leb, ◌==◌, if◌then◌else◌,
}

abbrev pub Text : Type 0
Text = List ℕ

abbrev pub comma : ℕ
comma = 44

abbrev pub equals : ℕ
equals = 61

abbrev pub dot : ℕ
dot = 46

abbrev pub letter_t : ℕ
letter_t = 116

abbrev pub letter_v : ℕ
letter_v = 118

abbrev pub digit_one : ℕ
digit_one = 49

-- `TOLERANCE_SECONDS`
abbrev pub tolerance_seconds : ℕ
tolerance_seconds = 300

abbrev pub text_eq : Text → Text → Bool
text_eq [] [] = true
text_eq [] (b ∷ right) = false
text_eq (a ∷ left) [] = false
text_eq (a ∷ left) (b ∷ right) = a == b && text_eq left right

abbrev pub is_empty : {A : Type 0} → List A → Bool
is_empty [] = true
is_empty (x ∷ xs) = false

-- `str(n)`, onto the digits after it; a number has at most as many digits as the rounds given.
unfoldable pub print_digits : ℕ → ℕ → Text → Text
print_digits zero n later = later
print_digits (suc rounds) n later =
    let more = print_digits rounds (n / 10) ((48 + n % 10) ∷ later) in
    if n / 10 == 0 then (48 + n % 10) ∷ later else more

unfoldable pub print_number : ℕ → Text
unfolding print_digits
print_number n = print_digits (suc n) n []

-- `int(text)` of digits, behind the digits before them.
unfoldable pub read_digits : ℕ → Text → ℕ
read_digits before [] = before
read_digits before (c ∷ cs) = read_digits (before * 10 + (c - 48)) cs

abbrev pub is_digit : ℕ → Bool
is_digit c = leb 48 c && leb c 57

-- Every character passes.
abbrev pub all_pass : (ℕ → Bool) → Text → Bool
all_pass test [] = true
all_pass test (c ∷ cs) = test c && all_pass test cs

-- `text.isascii() and text.isdigit()`
unfoldable pub is_number : Text → Bool
is_number text = not (is_empty text) && all_pass is_digit text

-- The white space of `str.strip`.
unfoldable pub is_space : ℕ → Bool
is_space c =
    (leb 9 c && leb c 13)
    || ((leb 28 c && leb c 32)
        || (c == 133
            || (c == 160
                || (c == 5760
                    || ((leb 8192 c && leb c 8202)
                        || ((leb 8232 c && leb c 8233)
                            || (c == 8239 || (c == 8287 || c == 12288))))))))

unfoldable pub strip_left : Text → Text
unfolding is_space
strip_left [] = []
strip_left (c ∷ cs) = let rest = strip_left cs in if is_space c then rest else c ∷ cs

unfoldable pub strip_right : Text → Text
unfolding is_space
strip_right [] = []
strip_right (c ∷ cs) =
    let rest = strip_right cs in if is_space c && is_empty rest then [] else c ∷ rest

-- `str.strip`
unfoldable pub strip : Text → Text
unfolding strip_left strip_right
strip text = strip_right (strip_left text)

abbrev pub push : ℕ → List Text → List Text
push c [] = (c ∷ []) ∷ []
push c (part ∷ parts) = (c ∷ part) ∷ parts

-- `text.split(separator)`
unfoldable pub split_on : ℕ → Text → List Text
split_on separator [] = [] ∷ []
split_on separator (c ∷ cs) =
    let parts = split_on separator cs in if c == separator then [] ∷ parts else push c parts

abbrev pub joined_after : ℕ → List Text → Text
joined_after separator [] = []
joined_after separator (part ∷ parts) = separator ∷ (part ++ joined_after separator parts)

-- `separator.join(parts)`
unfoldable pub join_parts : ℕ → List Text → Text
join_parts separator [] = []
join_parts separator (part ∷ parts) = part ++ joined_after separator parts

-- What `partition` answers, the separator as whether it was found.
pub record Parted : Type 0 where
  pub before : Text
  pub found : Bool
  pub behind : Text

-- `text.partition(separator)` at a character.
unfoldable pub partition_at : ℕ → Text → Parted
partition_at separator [] = record { before = []; found = false; behind = [] }
partition_at separator (c ∷ cs) =
    let later = partition_at separator cs in
    if c == separator
    then record { before = []; found = true; behind = cs }
    else record later { before = c ∷ later.before }

-- What is left of a text behind a prefix, if it has it.
unfoldable pub without_prefix : Text → Text → Option Text
without_prefix [] text = some text
without_prefix (p ∷ ps) [] = none
without_prefix (p ∷ ps) (c ∷ cs) = let rest = without_prefix ps cs in if p == c then rest else none

-- `text.partition(part)[2]`: what stands behind the first place a part stands at.
unfoldable pub behind_part : Text → Text → Text
unfolding without_prefix
behind_part part [] = []
behind_part part (c ∷ cs) =
    let later = behind_part part cs in
    elim (without_prefix part (c ∷ cs)) [ none ↦ later | some rest ↦ rest ]

-- `f"{SIGNATURE_VERSION}={digest}"`
abbrev pub version_part : Text → Text
version_part digest = letter_v ∷ digit_one ∷ equals ∷ digest

-- The keys that sign.
abbrev pub keys_of : String → Option String → List String
keys_of secret none = secret ∷ []
keys_of secret (some previous) = secret ∷ previous ∷ []

-- What is signed: `f"{timestamp}.".encode() + body`.
unfoldable pub signed_text : ℕ → Text → Text
unfolding print_number
signed_text timestamp body = print_number timestamp ++ (dot ∷ body)

-- `sign`
unfoldable pub sign : (String → Text → Text) → String → ℕ → Text → Option String → Text
unfolding print_number signed_text join_parts
sign mac secret timestamp body previous = join_parts comma (
    (letter_t ∷ equals ∷ print_number timestamp)
    ∷ map (λ key. version_part (mac key (signed_text timestamp body))) (keys_of secret previous))

-- What the parts read so far say.
pub record Reading : Type 0 where
  pub stamp : Text
  pub digests : List Text

-- One part of a header.
unfoldable pub read_part : Reading → Text → Reading
unfolding strip partition_at
read_part reading part =
    let parted = partition_at equals part in
    let name = strip parted.before in
    let value = strip parted.behind in
    if parted.found && text_eq name (letter_t ∷ [])
    then record reading { stamp = value }
    else if parted.found && (text_eq name (letter_v ∷ digit_one ∷ []) && not (is_empty value))
    then record reading { digests = reading.digests ++ (value ∷ []) }
    else reading

unfoldable pub read_parts : Reading → List Text → Reading
unfolding read_part
read_parts reading [] = reading
read_parts reading (part ∷ parts) = read_parts (read_part reading part) parts

-- A header, or the empty text where there is none.
unfoldable pub read_header : Option Text → Reading
unfolding read_parts split_on
read_header header =
    read_parts (record { stamp = []; digests = [] })
      (split_on comma (elim header [ none ↦ [] | some text ↦ text ]))

-- `abs(a - b)`
abbrev pub gap : ℕ → ℕ → ℕ
gap a b = (a - b) + (b - a)

abbrev pub any_eq : Text → List Text → Bool
any_eq expected [] = false
any_eq expected (digest ∷ digests) = text_eq expected digest || any_eq expected digests

-- What a reading comes to at an instant: fresh, and signed with the secret.
unfoldable pub accepts : (String → Text → Text) → String → Text → ℕ → ℕ → Reading → Bool
unfolding is_number read_digits behind_part sign
accepts mac secret body now tolerance reading =
    if not (is_number reading.stamp) || is_empty reading.digests
    then false
    else let at = read_digits 0 reading.stamp in
      if ltb tolerance (gap now at)
      then false
      else any_eq (behind_part (comma ∷ version_part []) (sign mac secret at body none))
          reading.digests

-- `verify_signature`, the clock given.
unfoldable pub verify_signature :
    (String → Text → Text) → String → Option Text → Text → ℕ → ℕ → Bool
unfolding accepts read_header
verify_signature mac secret header body now tolerance =
    accepts mac secret body now tolerance (read_header header)
