-- ===== src/Signing/Headers.antt =====
-- A header joined of parts, split into them again and read.
use mathlib.Core.List.{append-nil}
use agent_runs.Base.{
  ℕ, ◌≡◌, ap, ◌∙◌, Bool, true, false, not, ◌&&◌, List, [], ◌∷◌, ◌++◌, arith, refl, ◌==◌, none,
}
use agent_runs.Signing.{
  Text, comma, equals, letter_t, text_eq, is_empty, all_pass, is_space, strip_left, strip_right,
  strip, split_on, joined_after, join_parts, partition_at, without_prefix, behind_part,
  version_part, Reading, read_part,
}

-- No separator of a header, and no white space.
unfoldable pub is_plain : ℕ → Bool
unfolding is_space
is_plain c = not (is_space c) && (not (c == comma) && not (c == equals))

-- No comma.
abbrev pub no_comma : ℕ → Bool
no_comma c = not (c == comma)

pub text_eq_refl : (text : Text) → text_eq text text ≡ true
text_eq_refl [] = refl
text_eq_refl (c ∷ cs) = ground (arith, text_eq_refl cs)

pub all_pass_weaken :
    (strong weak : ℕ → Bool) (text : Text)
    → ((c : ℕ) → strong c ≡ true → weak c ≡ true)
    → all_pass strong text ≡ true
    → all_pass weak text ≡ true
all_pass_weaken strong weak [] sub all = refl
all_pass_weaken strong weak (c ∷ cs) sub all =
    let rest : all_pass strong cs ≡ true = ground arith in
    ground (arith, sub c, all_pass_weaken strong weak cs sub rest)

strip_left-plain : (text : Text) → all_pass is_plain text ≡ true → strip_left text ≡ text
unfolding strip_left is_plain
strip_left-plain [] all = refl
strip_left-plain (c ∷ cs) all = let solid : is_space c ≡ false = ground arith in rw solid refl

strip_right-plain : (text : Text) → all_pass is_plain text ≡ true → strip_right text ≡ text
unfolding strip_right is_plain
strip_right-plain [] all = refl
strip_right-plain (c ∷ cs) all =
    let solid : is_space c ≡ false = ground arith in
    let rest : all_pass is_plain cs ≡ true = ground arith in
    rw (solid, strip_right-plain cs rest) refl

pub strip-plain : (text : Text) → all_pass is_plain text ≡ true → strip text ≡ text
unfolding strip
strip-plain text all = rw (strip_left-plain text all) (strip_right-plain text all)

-- Splitting behind a text without commas.
split_on-alone : (text : Text) → all_pass no_comma text ≡ true → split_on comma text ≡ text ∷ []
unfolding split_on
split_on-alone [] all = refl
split_on-alone (c ∷ cs) all =
    let other : c == comma ≡ false = ground arith in
    let rest : all_pass no_comma cs ≡ true = ground arith in rw (other, split_on-alone cs rest) refl

split_on-behind :
    (text later : Text)
    → all_pass no_comma text ≡ true
    → split_on comma (text ++ (comma ∷ later)) ≡ text ∷ split_on comma later
unfolding split_on
split_on-behind [] later all = refl
split_on-behind (c ∷ cs) later all =
    let other : c == comma ≡ false = ground arith in
    let rest : all_pass no_comma cs ≡ true = ground arith in
    rw (other, split_on-behind cs later rest) refl

-- Parts without commas.
abbrev pub all_apart : List Text → Bool
all_apart [] = true
all_apart (part ∷ parts) = all_pass no_comma part && all_apart parts

split-joined :
    (part : Text) (parts : List Text)
    → all_pass no_comma part ≡ true
    → all_apart parts ≡ true
    → split_on comma (part ++ joined_after comma parts) ≡ part ∷ parts
split-joined part [] apart rest = rw (append-nil part) (split_on-alone part apart)
split-joined part (next ∷ parts) apart rest =
    split_on-behind part (next ++ joined_after comma parts) apart
    ∙ ap (λ others. part ∷ others) (split-joined next parts (ground arith) (ground arith))

pub split-join_parts :
    (part : Text) (parts : List Text)
    → all_pass no_comma part ≡ true
    → all_apart parts ≡ true
    → split_on comma (join_parts comma (part ∷ parts)) ≡ part ∷ parts
unfolding join_parts
split-join_parts part parts apart rest = split-joined part parts apart rest

pub read_part-stamp :
    (reading : Reading) (digits : Text)
    → all_pass is_plain digits ≡ true
    → read_part reading (letter_t ∷ equals ∷ digits) ≡ record reading { stamp = digits }
unfolding read_part partition_at strip strip_left strip_right is_space
read_part-stamp reading digits plain = rw (strip-plain digits plain) refl

pub read_part-digest :
    (reading : Reading) (digest : Text)
    → all_pass is_plain digest ≡ true
    → is_empty digest ≡ false
    → read_part reading (version_part digest)
      ≡ record reading { digests = reading.digests ++ (digest ∷ []) }
unfolding read_part partition_at strip strip_left strip_right is_space
read_part-digest reading digest plain nonempty = rw (strip-plain digest plain, nonempty) refl

missing :
    (c : ℕ) (cs : Text)
    → no_comma c ≡ true
    → without_prefix (comma ∷ version_part []) (c ∷ cs) ≡ none
unfolding without_prefix
missing c cs apart = let other : comma == c ≡ false = ground arith in rw other refl

-- What stands behind the first comma that begins a version.
pub behind_part-found :
    (text digest : Text)
    → all_pass no_comma text ≡ true
    → behind_part (comma ∷ version_part []) (text ++ (comma ∷ version_part digest)) ≡ digest
unfolding behind_part
behind_part-found [] digest apart = refl
behind_part-found (c ∷ cs) digest apart =
    let rest : all_pass no_comma cs ≡ true = ground arith in
    let here : no_comma c ≡ true = ground arith in
    rw (behind_part, missing c (cs ++ (comma ∷ version_part digest)) here)
      (behind_part-found cs digest rest)
