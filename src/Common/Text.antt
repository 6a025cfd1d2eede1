-- ===== src/Common/Text.antt =====
-- Texts as bytes, and strings that end with a zero.
use Prim.Native.Nat.{ℕ, suc, zero}
use Prim.Native.Char.{code}
use Prim.Native.String.{String}
use mathlib.Core.Path.{◌≡◌, refl}
use mathlib.Core.Logic.{◌≢◌}
use mathlib.Core.List.{List, [], ◌∷◌, ◌++◌}
use s6_projet_reseau.Common.Tests.{◌==◌, if◌then◌else◌, ne→not_==}
use s6_projet_reseau.Common.Lists.{All}
use s6_projet_reseau.Common.Run.{Run, ok, fault, ◌>>=◌}

-- The bytes of a text of ASCII.
abbrev pub codes : String → List ℕ
codes String.[] = []
codes (String.◌∷◌ c s) = code c ∷ codes s

-- What `%s` reads: the string that starts an object. There may be no zero in it.
unfoldable pub c_string : List ℕ → Run (List ℕ)
c_string [] = fault
c_string (c ∷ cs) = do
  rest ← if c == 0 then ok [] else c_string cs
  ok (if c == 0 then [] else c ∷ rest)

-- What `%.*s` reads: at most `n` bytes, up to a zero.
unfoldable pub c_prefix : ℕ → List ℕ → Run (List ℕ)
c_prefix zero cs = ok []
c_prefix (suc n) [] = fault
c_prefix (suc n) (c ∷ cs) = do
  rest ← if c == 0 then ok [] else c_prefix n cs
  ok (if c == 0 then [] else c ∷ rest)

pub c_string-zero : (cs rest : List ℕ) → All (λ c. c ≢ 0) cs → c_string (cs ++ (0 ∷ rest)) ≡ ok cs
unfolding c_string
c_string-zero [] rest h = refl
c_string-zero (c ∷ cs) rest h = rw (ne→not_== c 0 h.0, c_string-zero cs rest h.1) refl
