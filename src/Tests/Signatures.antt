-- ===== src/Tests/Signatures.antt =====
-- A signature made with two secrets, and checked with the replaced one.
use agent_runs.Base.{String, ◌≡◌, some, [], ◌∷◌, arith, str_eq, if◌then◌else◌, leb, refl}
use agent_runs.Signing.{Text, sign, gap, verify_signature, tolerance_seconds}
use agent_runs.Signing.RoundTrip.{IsHexMac, verify_signature-sign}

abbrev mac : String → Text → Text
mac key text = if str_eq key "new" then 97 ∷ 49 ∷ [] else 98 ∷ []

mac-IsHexMac : IsHexMac mac
mac-IsHexMac = record { hex = λ key text. ground arith; nonempty = λ key text. ground arith }

abbrev body : Text
body = 123 ∷ 125 ∷ []

verify_signature-sign_example :
    verify_signature mac "old"
      (some (sign mac "new" 1700000000 body (some "old")))
      body
      1700000200
      tolerance_seconds
    ≡ leb (gap 1700000200 1700000000) tolerance_seconds
verify_signature-sign_example =
    verify_signature-sign mac "new" "old" (some "old") 1700000000 body 1700000200 tolerance_seconds
      mac-IsHexMac refl
