-- ===== src/Base/Text.antt =====
-- Go's `strings` on texts. A text is a sequence of Unicode scalar values, as Go sees a string that
-- is valid UTF-8; `len` counts its bytes. Only ASCII letters have another lower case here.
use Prim.Native.Nat.{ℕ, zero, suc, ◌-◌}
use Prim.Native.Char.{Char, code}
use Prim.Native.String.{String}
use mathlib.Core.Path.{◌≡◌, refl, ap}
use mathlib.Core.Bool.{Bool, true, false, not, ◌&&◌, ◌||◌}
use mathlib.Core.List.{List, [], ◌∷◌}
use text.Mathlib.Text.{◌==◌}
use text.Mathlib.TextEquality.{eq_iff}
use mathlib.Core.Logic.{inl, inr}
use server_monitor.Base.Tests.{Bool-cases, leb, eqb, if◌then◌else◌}
use native.Mathlib.Omega.{arith}

-- unicode.IsSpace
unfoldable pub is_space : ℕ → Bool
is_space c =
    (leb 9 c && leb c 13)
    || eqb c 32
    || eqb c 0x85
    || eqb c 0xa0
    || eqb c 0x1680
    || (leb 0x2000 c && leb c 0x200a)
    || eqb c 0x2028
    || eqb c 0x2029
    || eqb c 0x202f
    || eqb c 0x205f
    || eqb c 0x3000

unfoldable pub is_digit : ℕ → Bool
is_digit c = leb b'0' c && leb c b'9'

pub trim_left : String → String
trim_left String.[] = String.[]
trim_left (String.◌∷◌ c s) =
    let rest = trim_left s in if is_space (code c) then rest else String.◌∷◌ c s

-- A space is dropped when nothing is left behind it.
keep_unless_space : Char → String → String
keep_unless_space c String.[] = if is_space (code c) then String.[] else String.◌∷◌ c String.[]
keep_unless_space c (String.◌∷◌ d s) = String.◌∷◌ c (String.◌∷◌ d s)

pub trim_right : String → String
unfolding keep_unless_space
trim_right String.[] = String.[]
trim_right (String.◌∷◌ c s) = keep_unless_space c (trim_right s)

-- strings.TrimSpace
unfoldable pub trim_space : String → String
unfolding trim_left trim_right is_space
trim_space s = trim_right (trim_left s)

char_at_or : ℕ → String → Char → Char
char_at_or n String.[] d = d
char_at_or zero (String.◌∷◌ c s) d = c
char_at_or (suc n) (String.◌∷◌ c s) d = char_at_or n s d

lower_char : Char → Char
unfolding char_at_or
lower_char c =
    if leb b'A' (code c) && leb (code c) b'Z'
    then char_at_or (code c - b'A') "abcdefghijklmnopqrstuvwxyz" c
    else c

-- strings.ToLower
unfoldable pub to_lower : String → String
unfolding lower_char
to_lower String.[] = String.[]
to_lower (String.◌∷◌ c s) = String.◌∷◌ (lower_char c) (to_lower s)

-- strings.HasPrefix
unfoldable pub has_prefix : String → String → Bool
has_prefix s String.[] = true
has_prefix String.[] (String.◌∷◌ d t) = false
has_prefix (String.◌∷◌ c s) (String.◌∷◌ d t) = eqb (code c) (code d) && has_prefix s t

-- strings.TrimPrefix
unfoldable pub trim_prefix : String → String → String
trim_prefix s String.[] = s
trim_prefix String.[] (String.◌∷◌ d t) = String.[]
trim_prefix (String.◌∷◌ c s) (String.◌∷◌ d t) =
    let rest = trim_prefix s t in
    if has_prefix (String.◌∷◌ c s) (String.◌∷◌ d t) then rest else String.◌∷◌ c s

-- strings.Contains
unfoldable pub contains : String → String → Bool
unfolding has_prefix
contains String.[] t = has_prefix String.[] t
contains (String.◌∷◌ c s) t = has_prefix (String.◌∷◌ c s) t || contains s t

-- strings.HasSuffix
unfoldable pub has_suffix : String → String → Bool
has_suffix String.[] t = String.[] == t
has_suffix (String.◌∷◌ c s) t = (String.◌∷◌ c s == t) || has_suffix s t

-- The pieces of strings.Split at a character; the first piece is held apart.
split_first : ℕ → String → String × List String
split_first sep String.[] = (String.[], [])
split_first sep (String.◌∷◌ c s) =
    let (piece, rest) = split_first sep s in
    if eqb (code c) sep then (String.[], piece ∷ rest) else (String.◌∷◌ c piece, rest)

unfoldable pub split : String → ℕ → List String
unfolding split_first
split s sep = let (piece, rest) = split_first sep s in piece ∷ rest

-- Go's `+` on strings.
abbrev pub append : String → String → String
append String.[] t = t
append (String.◌∷◌ c s) t = String.◌∷◌ c (append s t)

-- strings.Join with a separator.
unfoldable pub join : List String → String → String
join [] sep = ""
join (s ∷ []) sep = s
join (s ∷ t ∷ rest) sep = append s (append sep (join (t ∷ rest) sep))

trims : trim_space "  a b \n" ≡ "a b"
unfolding trim_space
trims = refl

lowers : to_lower "WARNing-7" ≡ "warning-7"
unfolding to_lower
lowers = refl

splits : split "a.b..c" b'.' ≡ "a" ∷ "b" ∷ "" ∷ "c" ∷ []
unfolding split
splits = refl

finds : contains "rate(scrape_interval)" "scrape_interval" ≡ true
unfolding contains
finds = refl

-- A text that `split` leaves whole.
unfoldable pub free_of : ℕ → String → Bool
free_of sep String.[] = true
free_of sep (String.◌∷◌ c s) = if eqb (code c) sep then false else free_of sep s

split_first-free_of : (sep : ℕ) (s : String) → free_of sep s ≡ true → split_first sep s ≡ (s, [])
unfolding split_first free_of
split_first-free_of sep String.[] h = refl
split_first-free_of sep (String.◌∷◌ c s) h =
    ground (arith, split_first-free_of sep s (ground arith))

split_first-append :
    (sep : ℕ) (c : Char) (s t : String)
    → free_of sep s ≡ true
    → eqb (code c) sep ≡ true
    → split_first sep (append s (String.◌∷◌ c t))
      ≡ (s, (split_first sep t).0 ∷ (split_first sep t).1)
unfolding split_first free_of
split_first-append sep c String.[] t h e = ground arith
split_first-append sep c (String.◌∷◌ d s) t h e =
    ground (arith, split_first-append sep c s t (ground arith) e)

pub split-free_of : (sep : ℕ) (s : String) → free_of sep s ≡ true → split s sep ≡ s ∷ []
unfolding split
split-free_of sep s h = rw (split_first-free_of sep s h) refl

pub split-append :
    (sep : ℕ) (c : Char) (s t : String)
    → free_of sep s ≡ true
    → eqb (code c) sep ≡ true
    → split (append s (String.◌∷◌ c t)) sep ≡ s ∷ split t sep
unfolding split
split-append sep c s t h e = rw (split_first-append sep c s t h e) refl

-- A text without spaces.
unfoldable pub space_free : String → Bool
space_free String.[] = true
space_free (String.◌∷◌ c s) = if is_space (code c) then false else space_free s

trim_right-space_free : (s : String) → space_free s ≡ true → trim_right s ≡ s
unfolding trim_right space_free keep_unless_space
trim_right-space_free String.[] h = refl
trim_right-space_free (String.◌∷◌ c String.[]) h = ground arith
trim_right-space_free (String.◌∷◌ c (String.◌∷◌ d s)) h =
    let rest : trim_right (String.◌∷◌ d s) ≡ String.◌∷◌ d s =
      trim_right-space_free (String.◌∷◌ d s) (ground arith) in
    rw rest refl

trim_left-space_free : (s : String) → space_free s ≡ true → trim_left s ≡ s
unfolding trim_left space_free
trim_left-space_free String.[] h = refl
trim_left-space_free (String.◌∷◌ c s) h = ground arith

pub trim_space-space_free : (s : String) → space_free s ≡ true → trim_space s ≡ s
unfolding trim_space
trim_space-space_free s h = rw (trim_left-space_free s h) (trim_right-space_free s h)

pub space_free-append :
    (s t : String) → space_free s ≡ true → space_free t ≡ true → space_free (append s t) ≡ true
unfolding space_free
space_free-append String.[] t p q = q
space_free-append (String.◌∷◌ c s) t p q = ground (arith, space_free-append s t (ground arith) q)

is_cons : String → Bool
is_cons String.[] = false
is_cons (String.◌∷◌ c s) = true

pub cons-ne-empty : (c : Char) (s : String) → (String.◌∷◌ c s == "") ≡ false
unfolding is_cons
cons-ne-empty c s = elim (Bool-cases (String.◌∷◌ c s == "")) [
  | inr n ↦ n
  | inl y ↦
      let same : String.◌∷◌ c s ≡ "" = ground (arith, eq_iff (String.◌∷◌ c s) "") in
      let d : true ≡ false = ap is_cons same in cc
]

-- `s < t` on strings.
unfoldable pub text_less : String → String → Bool
text_less s String.[] = false
text_less String.[] (String.◌∷◌ d t) = true
text_less (String.◌∷◌ c s) (String.◌∷◌ d t) =
    let rest = text_less s t in if eqb (code c) (code d) then rest else not (leb (code d) (code c))

pub text_less-asymmetric : (s t : String) → text_less s t ≡ true → text_less t s ≡ false
unfolding text_less
text_less-asymmetric s String.[] h = cc
text_less-asymmetric String.[] (String.◌∷◌ d t) h = refl
text_less-asymmetric (String.◌∷◌ c s) (String.◌∷◌ d t) h = ground (arith, text_less-asymmetric s t)

pub text_less-not_less_trans :
    (s t u : String) → text_less s t ≡ false → text_less t u ≡ false → text_less s u ≡ false
unfolding text_less
text_less-not_less_trans s t String.[] p q = refl
text_less-not_less_trans s String.[] (String.◌∷◌ e u) p q = cc
text_less-not_less_trans String.[] (String.◌∷◌ d t) (String.◌∷◌ e u) p q = cc
text_less-not_less_trans (String.◌∷◌ c s) (String.◌∷◌ d t) (String.◌∷◌ e u) p q =
    ground (arith, text_less-not_less_trans s t u)
