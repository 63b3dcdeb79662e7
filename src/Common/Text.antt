-- ===== src/Common/Text.antt =====
-- Texts as lists of bytes: `std::string` and `std::string_view` are sequences of `char`.
-- A byte is its unsigned value; no test of the code tells a negative `char` from one above 127.
use Prim.Native.Nat.{ℕ}
use Prim.Native.Char.{code}
use Prim.Native.String.{String}
use mathlib.Core.Path.{◌≡◌, refl}
use mathlib.Core.Bool.{Bool, true, false, ◌&&◌}
use mathlib.Core.Logic.{◌↔◌}
use mathlib.Core.List.{List, [], ◌∷◌}
use native.Mathlib.Omega.{arith}
use pinpoint_cpp_agent.Common.Tests.{leb, ◌==◌}

abbrev pub Bytes : Type 0
Bytes = List ℕ

-- The code points of a literal, which are its bytes: every literal of the code is ASCII.
abbrev pub codes : String → Bytes
codes String.[] = []
codes (String.◌∷◌ c s) = code c ∷ codes s

-- `operator==` on strings.
abbrev pub bytes_eq : Bytes → Bytes → Bool
bytes_eq [] [] = true
bytes_eq [] (d ∷ t) = false
bytes_eq (c ∷ s) [] = false
bytes_eq (c ∷ s) (d ∷ t) = (c == d) && bytes_eq s t

-- `starts_with(value, prefix)`
abbrev pub starts_with : Bytes → Bytes → Bool
starts_with value [] = true
starts_with [] (d ∷ t) = false
starts_with (c ∷ s) (d ∷ t) = (c == d) && starts_with s t

-- `std::isdigit` in the C locale
abbrev pub is_digit : ℕ → Bool
is_digit c = leb b'0' c && leb c b'9'

pub bytes_eq_iff : (s t : Bytes) → (bytes_eq s t ≡ true) ↔ (s ≡ t)
bytes_eq_iff s t = (sound s t, complete s t)
  where
    sound : (s t : Bytes) → bytes_eq s t ≡ true → s ≡ t
    sound [] [] h = refl
    sound [] (d ∷ t) h = ground arith
    sound (c ∷ s) [] h = ground arith
    sound (c ∷ s) (d ∷ t) h = ground (arith, sound s t)

    complete : (s t : Bytes) → s ≡ t → bytes_eq s t ≡ true
    complete [] [] h = refl
    complete [] (d ∷ t) h = ground arith
    complete (c ∷ s) [] h = ground arith
    complete (c ∷ s) (d ∷ t) h = ground (arith, complete s t)
