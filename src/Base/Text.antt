-- ===== src/Base/Text.antt =====
-- The functions of Go's packages `fmt`, `strings` and `net` that the program uses. Letters and
-- spaces are those of ASCII: addresses, names and flags hold no others.
use Prim.Native.Nat.{ℕ, zero, suc, ◌-◌, ◌/◌, ◌%◌}
use Prim.Native.Char.{Char, code}
use Prim.Native.String.{String, ◌++◌ as ◌<>◌, len, find, slice}
use mathlib.Core.Bool.{Bool, false, not, ◌&&◌, ◌||◌}
use mathlib.Core.Option.{Option, none, some}
use mathlib.Core.List.{List, [], ◌∷◌}
use text.Mathlib.Text
use package.easyshift.Base.Lists.{keep}
use package.easyshift.Base.Int.{ℤ, pos, negsuc}
use package.easyshift.Base.Tests.{ltb, leb, eqb, ◌==◌, if◌then◌else◌}

digit : ℕ → String
digit n =
    if eqb n 0
    then "0"
    else if eqb n 1
    then "1"
    else if eqb n 2
    then "2"
    else if eqb n 3
    then "3"
    else if eqb n 4
    then "4"
    else if eqb n 5
    then "5"
    else if eqb n 6
    then "6"
    else if eqb n 7
    then "7"
    else if eqb n 8
    then "8"
    else if eqb n 9
    then "9"
    else if eqb n 10
    then "a"
    else if eqb n 11
    then "b"
    else if eqb n 12
    then "c"
    else if eqb n 13
    then "d"
    else if eqb n 14
    then "e"
    else "f"

-- With fuel n a number of n digits is printed whole.
decimal_on : ℕ → ℕ → String
unfolding digit
decimal_on zero n = digit (n % 10)
decimal_on (suc fuel) n =
    let front = decimal_on fuel (n / 10) in if ltb n 10 then digit n else front <> digit (n % 10)

-- `%d` of a number that is not negative. A 64-bit number has at most 20 digits.
unfoldable pub decimal : ℕ → String
unfolding decimal_on
decimal n = decimal_on 20 n

-- `%d` of an int
abbrev pub show_ℤ : ℤ → String
show_ℤ (pos n) = decimal n
show_ℤ (negsuc n) = "-" <> decimal (suc n)

-- `%02x` of a byte
unfoldable pub hex_byte : ℕ → String
unfolding digit
hex_byte n = digit (n / 16) <> digit (n % 16)

-- `strings.Contains`, `strings.HasPrefix` and `strings.HasSuffix`
abbrev pub has_substring : String → String → Bool
has_substring s t = leb (find s t) (len s)

abbrev pub has_prefix : String → String → Bool
has_prefix s t = Text.starts_with s t

abbrev pub has_suffix : String → String → Bool
has_suffix s t = leb (len t) (len s) && slice s (len s - len t) (len s) == t

-- `strings.TrimSuffix`
unfoldable pub trim_suffix : String → String → String
trim_suffix s t = if has_suffix s t then slice s 0 (len s - len t) else s

-- `strings.Join`
unfoldable pub join : List String → String → String
join [] sep = ""
join (s ∷ []) sep = s
join (s ∷ t ∷ rest) sep = s <> (sep <> join (t ∷ rest) sep)

-- The small letters with their capitals.
letters : List (Char × Char)
letters =
    ("a", "A")
    ∷ ("b", "B")
    ∷ ("c", "C")
    ∷ ("d", "D")
    ∷ ("e", "E")
    ∷ ("f", "F")
    ∷ ("g", "G")
    ∷ ("h", "H")
    ∷ ("i", "I")
    ∷ ("j", "J")
    ∷ ("k", "K")
    ∷ ("l", "L")
    ∷ ("m", "M")
    ∷ ("n", "N")
    ∷ ("o", "O")
    ∷ ("p", "P")
    ∷ ("q", "Q")
    ∷ ("r", "R")
    ∷ ("s", "S")
    ∷ ("t", "T")
    ∷ ("u", "U")
    ∷ ("v", "V")
    ∷ ("w", "W")
    ∷ ("x", "X")
    ∷ ("y", "Y")
    ∷ ("z", "Z")
    ∷ []

capital : List (Char × Char) → Char → Char
capital [] c = c
capital ((small, big) ∷ rest) c =
    let other = capital rest c in if eqb (code c) (code small) then big else other

small : List (Char × Char) → Char → Char
small [] c = c
small ((little, big) ∷ rest) c =
    let other = small rest c in if eqb (code c) (code big) then little else other

map_chars : (Char → Char) → String → String
map_chars f String.[] = String.[]
map_chars f (String.◌∷◌ c s) = String.◌∷◌ (f c) (map_chars f s)

-- `strings.ToUpper` and `strings.ToLower`
unfoldable pub to_upper : String → String
unfolding letters capital map_chars
to_upper = map_chars (capital letters)

unfoldable pub to_lower : String → String
unfolding letters small map_chars
to_lower = map_chars (small letters)

-- `strings.ReplaceAll` of one character by another
unfoldable pub replace_char : Char → Char → String → String
unfolding map_chars
replace_char old new = map_chars (λ c. if eqb (code c) (code old) then new else c)

-- `strings.HasSuffix` for one character
unfoldable pub ends_with : Char → String → Bool
ends_with d String.[] = false
ends_with d (String.◌∷◌ c String.[]) = eqb (code c) (code d)
ends_with d (String.◌∷◌ c (String.◌∷◌ e s)) = ends_with d (String.◌∷◌ e s)

cons_first : Char → List String → List String
cons_first c [] = String.◌∷◌ c String.[] ∷ []
cons_first c (s ∷ rest) = String.◌∷◌ c s ∷ rest

-- `strings.Split` at one character
unfoldable pub split_at : Char → String → List String
unfolding cons_first
split_at sep String.[] = String.[] ∷ []
split_at sep (String.◌∷◌ c s) =
    let rest = split_at sep s in
    if eqb (code c) (code sep) then String.[] ∷ rest else cons_first c rest

is_space : Char → Bool
is_space c = (leb 9 (code c) && leb (code c) 13) || eqb (code c) 32

trim_left : String → String
trim_left String.[] = String.[]
trim_left (String.◌∷◌ c s) = let rest = trim_left s in if is_space c then rest else String.◌∷◌ c s

trim_right : String → String
trim_right String.[] = String.[]
trim_right (String.◌∷◌ c s) =
    let rest = trim_right s in if is_space c && rest == "" then String.[] else String.◌∷◌ c rest

-- `strings.TrimSpace`
unfoldable pub trim_space : String → String
unfolding is_space trim_left trim_right
trim_space s = trim_right (trim_left s)

-- What `net.ParseIP` reads: an IPv4 address (`To4` is not nil) by its bytes, or another.
pub data Ip : Type 0 where
  v4 : ℕ → ℕ → ℕ → ℕ → Ip
  v6 : String → Ip

-- The parsers of package `net`: the network address of a CIDR comes with the length of its prefix.
pub record Net : Type 0 where
  pub parse_ip : String → Option Ip
  pub parse_cidr : String → Option (Ip × ℕ)
  pub parse_mac : String → Bool

-- `%d.%d.%d.%d`
unfoldable pub show_v4 : ℕ → ℕ → ℕ → ℕ → String
show_v4 a b c d = decimal a <> ("." <> (decimal b <> ("." <> (decimal c <> ("." <> decimal d)))))

-- `strings.Fields`
split_spaces : String → List String
unfolding cons_first is_space
split_spaces String.[] = String.[] ∷ []
split_spaces (String.◌∷◌ c s) =
    let rest = split_spaces s in if is_space c then String.[] ∷ rest else cons_first c rest

unfoldable pub fields : String → List String
unfolding split_spaces
fields s = keep (λ f. not (f == "")) (split_spaces s)

-- `s[strings.LastIndex(s, sep)+1:]` for one character: what stands behind the last one, or all.
unfoldable pub last_part : Char → String → String
last_part sep String.[] = String.[]
last_part sep (String.◌∷◌ c s) =
    let rest = last_part sep s in
    if eqb (code c) (code sep) then rest else if rest == s then String.◌∷◌ c s else rest

-- What stands before the first such character, or all.
unfoldable pub first_part : Char → String → String
first_part sep String.[] = String.[]
first_part sep (String.◌∷◌ c s) =
    let rest = first_part sep s in if eqb (code c) (code sep) then String.[] else String.◌∷◌ c rest

-- `len(s)`
abbrev pub text_length : String → ℕ
text_length = len

-- `bytes.Count` of a text that is not empty and does not overlap itself.
unfoldable pub count_of : String → String → ℕ
count_of t String.[] = 0
count_of t (String.◌∷◌ c s) =
    let rest = count_of t s in if has_prefix (String.◌∷◌ c s) t then suc rest else rest

cons_before : Char → Option (String × String) → Option (String × String)
cons_before c none = none
cons_before c (some (before, behind)) = some (String.◌∷◌ c before, behind)

-- `strings.Cut` at one character: what stands before the first one and behind it.
unfoldable pub cut_at : Char → String → Option (String × String)
unfolding cons_before
cut_at sep String.[] = none
cut_at sep (String.◌∷◌ c s) =
    let rest = cut_at sep s in
    if eqb (code c) (code sep) then some (String.[], s) else cons_before c rest
