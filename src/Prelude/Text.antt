-- ===== src/Prelude/Text.antt =====
-- Go's strings: what the services use of package `strings`, and the optional columns that they
-- fill from request fields (`if req.X != "" { r.X = &req.X }`).
use Prim.Native.Nat.{ℕ, ◌+◌}
use Prim.Native.Char.{Char, code}
use Prim.Native.String.{String}
use mathlib.Core.Bool.{Bool, true, false, ◌&&◌, ◌||◌}
use mathlib.Core.Option.{Option, none, some}
use guestbook.Prelude.Tests.{leb, ◌==◌, if◌then◌else◌}

-- `s == ""`
abbrev pub is_empty : String → Bool
is_empty String.[] = true
is_empty (String.◌∷◌ c s) = false

-- `var p *string; if s != "" { p = &s }`
abbrev pub opt_text : String → Option String
opt_text s = if is_empty s then none else some s

-- `if s != "" { x = s }` and `if s != "" { p = &s }`
abbrev pub text_or : String → String → String
text_or s old = if is_empty s then old else s

abbrev pub opt_text_or : String → Option String → Option String
opt_text_or s old = if is_empty s then old else some s

-- `if p != nil { x = *p }` and `if p != nil { x = p }`
abbrev pub value_or {ℓ} : {A : Type ℓ} → Option A → A → A
value_or none old = old
value_or (some v) old = v

abbrev pub pointer_or {ℓ} : {A : Type ℓ} → Option A → Option A → Option A
pointer_or none old = old
pointer_or (some v) old = some v

-- The code points of `unicode.IsSpace`.
is_space : Char → Bool
is_space ch =
    let c = code ch in
    leb 9 c && leb c 13
    || c == 32
    || c == 0x85
    || c == 0xa0
    || c == 0x1680
    || leb 0x2000 c && leb c 0x200a
    || c == 0x2028
    || c == 0x2029
    || c == 0x202f
    || c == 0x205f
    || c == 0x3000

trim_left : String → String
unfolding is_space
trim_left String.[] = String.[]
trim_left (String.◌∷◌ c s) = let rest = trim_left s in if is_space c then rest else String.◌∷◌ c s

trim_right : String → String
unfolding is_space
trim_right String.[] = String.[]
trim_right (String.◌∷◌ c s) =
    let rest = trim_right s in if is_space c && is_empty rest then String.[] else String.◌∷◌ c rest

-- `strings.TrimSpace`
unfoldable pub trim_space : String → String
unfolding trim_left trim_right
trim_space s = trim_right (trim_left s)

-- A letter A to Z as its small one.
small : Char → ℕ
small ch = let c = code ch in if leb 65 c && leb c 90 then c + 32 else c

-- `strings.EqualFold`, when one of the texts has only the digits and the letters a to f.
unfoldable pub equal_fold : String → String → Bool
unfolding small
equal_fold String.[] String.[] = true
equal_fold (String.◌∷◌ c s) (String.◌∷◌ d t) = small c == small d && equal_fold s t
equal_fold _ _ = false
