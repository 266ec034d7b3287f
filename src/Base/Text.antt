-- ===== src/Base/Text.antt =====
-- Texts as lists of byte values, and the searches that the source makes in them.
use Prim.Native.Nat.{ℕ, ◌+◌}
use Prim.Native.Char.{code}
use Prim.Native.String.{String}
use mathlib.Core.Bool.{Bool, true, false, ◌&&◌}
use mathlib.Core.List.{List, [], ◌∷◌}
use mathlib.Core.Option.{Option, none, some}
use titan_bench.Base.Check.{◌==◌, if◌then◌else◌}
use titan_bench.Base.Lists.{drop}

abbrev pub Bytes : Type 0
Bytes = List ℕ

-- The code points of a literal; every literal of the source is ASCII.
abbrev pub codes : String → Bytes
codes String.[] = []
codes (String.◌∷◌ c s) = code c ∷ codes s

abbrev pub crlf : Bytes
crlf = 13 ∷ 10 ∷ []

abbrev pub crlf_crlf : Bytes
crlf_crlf = 13 ∷ 10 ∷ 13 ∷ 10 ∷ []

abbrev pub is_empty : Bytes → Bool
is_empty [] = true
is_empty (c ∷ cs) = false

-- `==` on strings.
unfoldable pub same_text : Bytes → Bytes → Bool
same_text [] [] = true
same_text (a ∷ as') (b ∷ bs) = a == b && same_text as' bs
same_text _ _ = false

-- `substr(0, n) == pattern` for a pattern of length n.
unfoldable pub starts_with : Bytes → Bytes → Bool
starts_with [] s = true
starts_with (c ∷ cs) [] = false
starts_with (c ∷ cs) (d ∷ ds) = c == d && starts_with cs ds

abbrev pub shift : ℕ → Option ℕ → Option ℕ
shift n none = none
shift n (some p) = some (n + p)

-- `find(pattern)`, for a pattern that is not empty.
unfoldable pub find : Bytes → Bytes → Option ℕ
find pattern [] = none
find pattern (c ∷ cs) = if starts_with pattern (c ∷ cs) then some 0 else shift 1 (find pattern cs)

-- `find(pattern, from)`.
abbrev pub find_from : Bytes → Bytes → ℕ → Option ℕ
find_from pattern s from = shift from (find pattern (drop from s))
