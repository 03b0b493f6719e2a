-- ===== src/Base/Text.antt =====
-- Go strings as sequences of bytes, with what the program uses of the package `strings`.
pub mod Split
use Prim.Native.Char.{code}
use Prim.Native.String.{String}
use grpc_gw_controller.Base.Tests.{leb, ◌==◌, if◌then◌else◌}
use Prim.Native.Nat.{ℕ, ◌+◌, ◌-◌}
use mathlib.Core.Bool.{Bool, true, false, ◌&&◌, ◌||◌}
use mathlib.Core.List.{List, [], ◌∷◌, ◌++◌, map}
use grpc_gw_controller.Base.Lists.{length, take}
use grpc_gw_controller.Base.Equality.{bytes_eq}

abbrev pub Bytes : Type 0
Bytes = List ℕ

-- The bytes of an ASCII literal.
abbrev pub bytes : String → Bytes
bytes String.[] = []
bytes (String.◌∷◌ c s) = code c ∷ bytes s

-- `strings.HasPrefix`
unfoldable pub has_prefix : Bytes → Bytes → Bool
has_prefix s [] = true
has_prefix [] (p ∷ ps) = false
has_prefix (c ∷ s) (p ∷ ps) = (c == p) && has_prefix s ps

-- `strings.HasSuffix`
unfoldable pub has_suffix : Bytes → Bytes → Bool
has_suffix [] p = bytes_eq [] p
has_suffix (c ∷ s) p = bytes_eq (c ∷ s) p || has_suffix s p

-- `strings.Contains`
unfoldable pub contains : Bytes → Bytes → Bool
contains [] p = has_prefix [] p
contains (c ∷ s) p = has_prefix (c ∷ s) p || contains s p

-- `s[0 : len(s)-n]`, which the program writes only behind a test that `s` ends in `n` bytes.
abbrev pub cut_end : ℕ → Bytes → Bytes
cut_end n s = take (length s - n) s

abbrev push : ℕ → List Bytes → List Bytes
push c [] = (c ∷ []) ∷ []
push c (w ∷ ws) = (c ∷ w) ∷ ws

-- The pieces between the bytes that pass `sep`.
unfoldable pub split_by : (ℕ → Bool) → Bytes → List Bytes
split_by sep [] = [] ∷ []
split_by sep (c ∷ s) = let ws = split_by sep s in if sep c then [] ∷ ws else push c ws

-- `strings.Split` by one byte.
abbrev pub split : ℕ → Bytes → List Bytes
split sep = split_by (λ c. c == sep)

-- The ASCII white space: tab, newline, vertical tab, form feed, carriage return and space.
abbrev pub is_space : ℕ → Bool
is_space c = (c == 32) || (leb 9 c && leb c 13)

abbrev keep : Bytes → List Bytes → List Bytes
keep [] ws = ws
keep (c ∷ w) ws = (c ∷ w) ∷ ws

abbrev nonempty : List Bytes → List Bytes
nonempty [] = []
nonempty (w ∷ ws) = keep w (nonempty ws)

-- `strings.Fields`
unfoldable pub fields : Bytes → List Bytes
unfolding split_by
fields s = nonempty (split_by is_space s)

-- `strings.Join`
unfoldable pub join : List Bytes → Bytes → Bytes
join [] sep = []
join (w ∷ []) sep = w
join (w ∷ v ∷ ws) sep = w ++ (sep ++ join (v ∷ ws) sep)

-- `strings.ToLower` on ASCII letters; other bytes stay.
abbrev pub lower : ℕ → ℕ
lower c = if leb 65 c && leb c 90 then c + 32 else c

unfoldable pub to_lower : Bytes → Bytes
to_lower s = map lower s

-- `strings.Replace(s, "x", "y", -1)` for one-byte texts.
abbrev pub replace_byte : ℕ → ℕ → ℕ → ℕ
replace_byte x y c = if c == x then y else c

unfoldable pub replace : ℕ → ℕ → Bytes → Bytes
replace x y s = map (replace_byte x y) s
