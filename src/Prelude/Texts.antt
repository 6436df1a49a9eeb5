-- ===== src/Prelude/Texts.antt =====
-- Texts and byte strings as lists of numbers, and the calls on `str` and slices that the program
-- uses: equality, prefixes, `find`, `rsplit_once`, `split_whitespace`, `trim`, `lines` and the
-- parsing of a `u16`.
use Prim.Native.Nat.{ℕ, ◌+◌, ◌-◌, ◌*◌}
use Prim.Native.Char.{code}
use Prim.Native.String.{String}
use mathlib.Core.Path.{◌≡◌, refl}
use mathlib.Core.Logic.{inl, inr}
use mathlib.Core.Bool.{Bool, true, false, ◌&&◌, ◌||◌}
use mathlib.Core.Option.{Option, none, some}
use mathlib.Core.List.{List, [], ◌∷◌, ◌++◌}
use native.Mathlib.Omega.{arith}
use cloud_desk_os.Prelude.Tests.{leb, ◌==◌, if◌then◌else◌, Option-cases}
use cloud_desk_os.Prelude.Lists.{All}

abbrev pub Text : Type 0
Text = List ℕ

-- The code points of a literal, which are its bytes where it is ASCII.
abbrev pub codes : String → Text
codes String.[] = []
codes (String.◌∷◌ c s) = code c ∷ codes s

unfoldable pub text_eq : Text → Text → Bool
text_eq [] [] = true
text_eq (a ∷ s) (b ∷ t) = a == b && text_eq s t
text_eq _ _ = false

unfoldable pub contains : Text → ℕ → Bool
contains [] c = false
contains (a ∷ s) c = a == c || contains s c

-- `strip_prefix`: what follows the prefix.
unfoldable pub strip_prefix : Text → Text → Option Text
strip_prefix s [] = some s
strip_prefix [] (b ∷ t) = none
strip_prefix (a ∷ s) (b ∷ t) = let rest = strip_prefix s t in if a == b then rest else none

-- A split of what follows a character, as a split of the whole.
after_char : ℕ → Option (Text × Text) → Option (Text × Text)
after_char a none = none
after_char a (some (before, rest)) = some (a ∷ before, rest)

-- The bytes before the first window that equals the pattern, and those behind it.
unfoldable pub split_at : Text → Text → Option (Text × Text)
unfolding strip_prefix after_char
split_at t [] = none
split_at t (a ∷ s) =
    let later = split_at t s in
    elim (strip_prefix (a ∷ s) t) [ some rest ↦ some ([], rest) | none ↦ after_char a later ]

-- `path.split('/')`: the segments between the slashes, at least one.
unfoldable pub split_slash : Text → Text × List Text
split_slash [] = ([], [])
split_slash (b ∷ bs) =
    let (segment, rest) = split_slash bs in
    if b == b'/' then ([], segment ∷ rest) else (b ∷ segment, rest)

-- The parts before and behind the last occurrence of a character.
unfoldable pub rsplit_once : ℕ → Text → Option (Text × Text)
rsplit_once c [] = none
rsplit_once c (a ∷ s) = elim (rsplit_once c s) [
  | some (before, rest) ↦ some (a ∷ before, rest)
  | none ↦ if a == c then some ([], s) else none
]

-- Unicode `White_Space`.
unfoldable pub is_whitespace : ℕ → Bool
is_whitespace c =
    leb 9 c && leb c 13
    || c == 32
    || c == 0x85
    || c == 0xa0
    || c == 0x1680
    || leb 0x2000 c && leb c 0x200a
    || c == 0x2028
    || c == 0x2029
    || c == 0x202f
    || c == 0x205f
    || c == 0x3000

unfoldable pub trim_start : Text → Text
unfolding is_whitespace
trim_start [] = []
trim_start (a ∷ s) = let rest = trim_start s in if is_whitespace a then rest else a ∷ s

unfoldable pub trim_end : Text → Text
unfolding is_whitespace
trim_end [] = []
trim_end (a ∷ s) = elim (trim_end s) [
  | b ∷ t ↦ a ∷ b ∷ t
  | [] ↦ if is_whitespace a then [] else a ∷ []
]

abbrev pub trim : Text → Text
trim s = trim_start (trim_end s)

-- The word up to the first white space, and what follows.
unfoldable pub word : Text → Text × Text
unfolding is_whitespace
word [] = ([], [])
word (a ∷ s) = let rest = word s in if is_whitespace a then ([], a ∷ s) else (a ∷ rest.0, rest.1)

abbrev pub to_ascii_lowercase : ℕ → ℕ
to_ascii_lowercase c = if leb 65 c && leb c 90 then c + 32 else c

unfoldable pub eq_ignore_ascii_case : Text → Text → Bool
eq_ignore_ascii_case [] [] = true
eq_ignore_ascii_case (a ∷ s) (b ∷ t) =
    to_ascii_lowercase a == to_ascii_lowercase b && eq_ignore_ascii_case s t
eq_ignore_ascii_case _ _ = false

-- One line break at the end of a line, and `lines`.
strip_return : Text → Text
strip_return [] = []
strip_return (a ∷ []) = if a == 13 then [] else a ∷ []
strip_return (a ∷ b ∷ s) = a ∷ strip_return (b ∷ s)

lines_from : Text → Text → List Text
unfolding strip_return
lines_from [] [] = []
lines_from line [] = line ∷ []
lines_from line (a ∷ s) =
    let here = strip_return line ∷ lines_from [] s in
    let longer = lines_from (line ++ a ∷ []) s in if a == 10 then here else longer

unfoldable pub lines : Text → List Text
unfolding lines_from
lines s = lines_from [] s

digits_value : ℕ → Text → Option ℕ
digits_value n [] = some n
digits_value n (c ∷ s) =
    let next = digits_value (n * 10 + (c - 48)) s in
    if leb 48 c && leb c 57 && leb (n * 10 + (c - 48)) 65535 then next else none

unsigned : Text → Option ℕ
unfolding digits_value
unsigned [] = none
unsigned (c ∷ s) = digits_value 0 (c ∷ s)

-- `parse::<u16>()`: a plus sign may stand before the digits; an overflow is an error.
unfoldable pub parse_u16 : Text → Option ℕ
unfolding unsigned
parse_u16 [] = none
parse_u16 (c ∷ s) = if c == b'+' then unsigned s else unsigned (c ∷ s)

pub text_eq_sound : (s t : Text) → text_eq s t ≡ true → s ≡ t
unfolding text_eq
text_eq_sound [] [] h = refl
text_eq_sound [] (b ∷ t) h = cc
text_eq_sound (a ∷ s) [] h = cc
text_eq_sound (a ∷ s) (b ∷ t) h = ground (arith, text_eq_sound s t)

pub text_eq_self : (s : Text) → text_eq s s ≡ true
unfolding text_eq
text_eq_self [] = refl
text_eq_self (a ∷ s) = ground (arith, text_eq_self s)

pub All-append {ℓ κ} :
    {A : Type ℓ} (P : A → Type κ) (xs ys : List A) → All P xs → All P ys → All P (xs ++ ys)
All-append P [] ys hx hy = hy
All-append P (x ∷ xs) ys hx hy = (hx.0, All-append P xs ys hx.1 hy)

pub strip_prefix-append : (s t rest : Text) → strip_prefix s t ≡ some rest → s ≡ t ++ rest
unfolding strip_prefix
strip_prefix-append s [] rest h = ground arith
strip_prefix-append [] (b ∷ t) rest h = cc
strip_prefix-append (a ∷ s) (b ∷ t) rest h = ground (arith, strip_prefix-append s t rest)

-- The parts of a split and the pattern spell the text.
pub split_at-append : (t s : Text) (r : Text × Text) → split_at t s ≡ some r → s ≡ r.0 ++ (t ++ r.1)
unfolding split_at
split_at-append t [] r h = cc
split_at-append t (a ∷ s) r h = elim (Option-cases (strip_prefix (a ∷ s) t)) [
  | inr (rest, e) ↦ ground (arith, strip_prefix-append (a ∷ s) t rest)
  | inl e ↦ elim (Option-cases (split_at t s)) [
    | inl f ↦ cc
    | inr (q, f) ↦ ground (arith, split_at-append t s q f)
  ]
]

pub contains-append : (p q : Text) (c : ℕ) → contains (p ++ q) c ≡ (contains p c || contains q c)
unfolding contains
contains-append [] q c = refl
contains-append (b ∷ bs) q c = ground (arith, contains-append bs q c)
