-- ===== src/Base/Text.antt =====
-- Python text as a list of code points, with what the code uses of `str`.
use xportra_ai.Base.Tests.{leb, ◌==◌, if◌then◌else◌}
use Prim.Native.Nat.{ℕ}
use Prim.Native.Char.{code}
use Prim.Native.String.{String}
use mathlib.Core.Path.{◌≡◌, refl}
use mathlib.Core.Bool.{Bool, true, false, ◌&&◌, ◌||◌}
use mathlib.Core.List.{List, [], ◌∷◌, ◌++◌}
use native.Mathlib.Omega.{arith}

abbrev pub Text : Type 0
Text = List ℕ

-- The code points of a literal.
abbrev pub codes : String → Text
codes String.[] = []
codes (String.◌∷◌ c s) = code c ∷ codes s

-- `separator.join(parts)`
unfoldable pub join : Text → List Text → Text
join separator [] = []
join separator (t ∷ []) = t
join separator (t ∷ u ∷ rest) = t ++ (separator ++ join separator (u ∷ rest))

-- `str.isspace` of one character.
unfoldable pub is_space : ℕ → Bool
is_space c =
    (leb 9 c && leb c 13)
    || (leb 28 c && leb c 32)
    || c == 0x85
    || c == 0xa0
    || c == 0x1680
    || (leb 0x2000 c && leb c 0x200a)
    || c == 0x2028
    || c == 0x2029
    || c == 0x202f
    || c == 0x205f
    || c == 0x3000

-- `not text.strip()`: nothing but white space.
unfoldable pub is_blank : Text → Bool
is_blank [] = true
is_blank (c ∷ s) = is_space c && is_blank s

unfoldable pub lstrip : Text → Text
lstrip [] = []
lstrip (c ∷ s) = let rest = lstrip s in if is_space c then rest else c ∷ s

unfoldable pub rstrip : Text → Text
unfolding is_blank
rstrip [] = []
rstrip (c ∷ s) = let rest = rstrip s in if is_blank (c ∷ s) then [] else c ∷ rest

-- `text.strip()`.
unfoldable pub strip : Text → Text
unfolding lstrip rstrip
strip s = rstrip (lstrip s)

is_blank-lstrip : (s : Text) → is_blank (lstrip s) ≡ is_blank s
unfolding is_blank lstrip
is_blank-lstrip [] = refl
is_blank-lstrip (c ∷ s) = ground (arith, is_blank-lstrip s)

is_blank-rstrip : (s : Text) → is_blank (rstrip s) ≡ is_blank s
unfolding is_blank rstrip
is_blank-rstrip [] = refl
is_blank-rstrip (c ∷ s) = ground (arith, is_blank-rstrip s)

pub is_blank-strip : (s : Text) → is_blank (strip s) ≡ is_blank s
unfolding strip
is_blank-strip s = ground (arith, is_blank-rstrip (lstrip s), is_blank-lstrip s)

rstrip_of_blank : (s : Text) → is_blank s ≡ true → rstrip s ≡ []
unfolding is_blank rstrip
rstrip_of_blank [] h = refl
rstrip_of_blank (c ∷ s) h = ground arith

lstrip_of_blank : (s : Text) → is_blank s ≡ true → lstrip s ≡ []
unfolding is_blank lstrip
lstrip_of_blank [] h = refl
lstrip_of_blank (c ∷ s) h = ground (arith, lstrip_of_blank s)

-- A blank text strips to the empty one.
pub strip_of_blank : (s : Text) → is_blank s ≡ true → strip s ≡ []
unfolding strip rstrip
strip_of_blank s h = ground (arith, lstrip_of_blank s h)

rstrip_idem : (s : Text) → rstrip (rstrip s) ≡ rstrip s
unfolding rstrip is_blank
rstrip_idem [] = refl
rstrip_idem (c ∷ s) = ground (arith, rstrip_idem s, is_blank-rstrip s)

-- The first character, if any, is not white space.
abbrev Starts : Text → Type 0
Starts [] = Unit
Starts (c ∷ s) = is_space c ≡ false

lstrip-Starts : (s : Text) → Starts (lstrip s)
unfolding lstrip
lstrip-Starts [] = tt
lstrip-Starts (c ∷ s) = ground (arith, lstrip-Starts s)

rstrip-Starts : (s : Text) → Starts s → Starts (rstrip s)
unfolding rstrip
rstrip-Starts [] h = tt
rstrip-Starts (c ∷ s) h = ground arith

lstrip_of_Starts : (s : Text) → Starts s → lstrip s ≡ s
unfolding lstrip
lstrip_of_Starts [] h = refl
lstrip_of_Starts (c ∷ s) h = ground arith

-- Stripping twice is stripping once.
pub strip_idem : (s : Text) → strip (strip s) ≡ strip s
unfolding strip
strip_idem s =
    let inner = rstrip (lstrip s) in
    ground (
      arith,
      lstrip_of_Starts inner (rstrip-Starts (lstrip s) (lstrip-Starts s)),
      rstrip_idem (lstrip s),
    )
