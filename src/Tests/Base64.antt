-- ===== src/Tests/Base64.antt =====
-- Base64 with padding, for the texts of the facade at concrete inputs.
use Prim.Native.Char.{Char, code}
use Prim.Native.String as Text
use new_zone_reference.Prelude.{
  ℕ, zero, suc, ◌+◌, ◌*◌, ◌/◌, ◌%◌, String, ◌≡◌, refl, ap, Bool, true, false, Option, none, some,
  List, [], ◌∷◌, inl, inr, ◌==◌, if◌then◌else◌, str_eq, eq_iff, Bool-cases,
}
use new_zone_reference.Js.{Value, str}
use new_zone_reference.Crypto.Bytes.{Bytes}

abbrev alphabet : String
alphabet = "ABCDEFGHIJKLMNOPQRSTUVWXYZabcdefghijklmnopqrstuvwxyz0123456789+/"

abbrev nth : ℕ → String → Char
nth n Text.[] = "="
nth zero (Text.◌∷◌ c s) = c
nth (suc n) (Text.◌∷◌ c s) = nth n s

abbrev letter : ℕ → Char
letter n = nth n alphabet

abbrev pub to_base64 : Bytes → String
to_base64 [] = ""
to_base64 (a ∷ []) = Text.◌∷◌ (letter (a / 4)) (Text.◌∷◌ (letter (a % 4 * 16)) "==")
to_base64 (a ∷ b ∷ []) =
    Text.◌∷◌ (letter (a / 4))
      (Text.◌∷◌ (letter (a % 4 * 16 + b / 16)) (Text.◌∷◌ (letter (b % 16 * 4)) "="))
to_base64 (a ∷ b ∷ c ∷ rest) = Text.◌∷◌ (letter (a / 4)) (
    Text.◌∷◌ (letter (a % 4 * 16 + b / 16))
      (Text.◌∷◌ (letter (b % 16 * 4 + c / 64)) (Text.◌∷◌ (letter (c % 64)) (to_base64 rest))))

abbrev place : ℕ → Char → String → ℕ
place n c Text.[] = n
place n c (Text.◌∷◌ d s) =
    let further = place (n + 1) c s in if code c == code d then n else further

abbrev sextets : String → List ℕ
sextets Text.[] = []
sextets (Text.◌∷◌ c s) =
    let more = sextets s in if code c == 61 then [] else place 0 c alphabet ∷ more

abbrev joined : List ℕ → Bytes
joined [] = []
joined (p ∷ []) = []
joined (p ∷ q ∷ []) = (p * 4 + q / 16) ∷ []
joined (p ∷ q ∷ r ∷ []) = (p * 4 + q / 16) ∷ (q % 16 * 16 + r / 4) ∷ []
joined (p ∷ q ∷ r ∷ s ∷ rest) =
    (p * 4 + q / 16) ∷ (q % 16 * 16 + r / 4) ∷ (r % 4 * 64 + s) ∷ joined rest

abbrev pub from_base64 : Value → Option Bytes
from_base64 (str s) = some (joined (sextets s))
from_base64 v = none

abbrev is_blank : String → Bool
is_blank Text.[] = true
is_blank (Text.◌∷◌ c s) = false

not_blank : (s : String) → is_blank s ≡ false → str_eq s "" ≡ false
not_blank s h = elim (Bool-cases (str_eq s "")) [
  | inl same ↦ let blank = ap is_blank ((eq_iff s "").0 same) in absurd (cc)
  | inr differs ↦ differs
]

pub to_base64_not_empty : (b : ℕ) (bs : Bytes) → str_eq (to_base64 (b ∷ bs)) "" ≡ false
to_base64_not_empty b [] = not_blank _ refl
to_base64_not_empty b (c ∷ []) = not_blank _ refl
to_base64_not_empty b (c ∷ d ∷ rest) = not_blank _ refl

-- "ManMa"
encoded : to_base64 (77 ∷ 97 ∷ 110 ∷ 77 ∷ 97 ∷ []) ≡ "TWFuTWE="
encoded = refl

decoded : from_base64 (str "TWFuTWE=") ≡ some (77 ∷ 97 ∷ 110 ∷ 77 ∷ 97 ∷ [])
decoded = refl
