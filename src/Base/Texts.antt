-- ===== src/Base/Texts.antt =====
-- Go strings as lists of bytes, and the parts of the packages `strings`, `strconv` and
-- `encoding/hex` that the program calls.
use Prim.Native.Nat.{ℕ, ◌+◌}
use Prim.Native.Char.{code}
use Prim.Native.String.{String}
use mathlib.Core.Path.{◌≡◌, refl}
use mathlib.Core.Logic.{◌↔◌}
use mathlib.Core.Bool.{Bool, true, false, ◌&&◌, ◌||◌}
use mathlib.Core.List.{List, [], ◌∷◌, ◌++◌}
use native.Mathlib.Omega.{arith}
use libvirt_rest_api.Base.Tests.{◌==◌, if◌then◌else◌, leb}

abbrev pub Text : Type 0
Text = List ℕ

-- The bytes of an ASCII literal.
unfoldable pub text : String → Text
text String.[] = []
text (String.◌∷◌ c s) = code c ∷ text s

-- `s == t` on Go strings.
unfoldable pub text_eq : Text → Text → Bool
text_eq [] [] = true
text_eq [] (_ ∷ _) = false
text_eq (_ ∷ _) [] = false
text_eq (a ∷ s) (b ∷ t) = a == b && text_eq s t

pub text_eq_iff : (s t : Text) → (text_eq s t ≡ true) ↔ (s ≡ t)
unfolding text_eq
text_eq_iff [] [] = ground arith
text_eq_iff [] (b ∷ t) = ground arith
text_eq_iff (a ∷ s) [] = ground arith
text_eq_iff (a ∷ s) (b ∷ t) = ground (arith, text_eq_iff s t)

-- `s != ""`.
abbrev pub is_set : Text → Bool
is_set [] = false
is_set (_ ∷ _) = true

pub text_eq_refl : (s : Text) → text_eq s s ≡ true
text_eq_refl s = (text_eq_iff s s).1 refl

-- `strings.Cut` at a separator of one byte: before, after, and whether it was found.
unfoldable pub cut : ℕ → Text → Text × Text × Bool
cut sep [] = ([], [], false)
cut sep (c ∷ s) =
    let (before, after, found) = cut sep s in
    if c == sep
    then ([], s, true)
    else if found
    then (c ∷ before, after, true)
    else (c ∷ s, [], false)

-- `strings.Contains` of one byte, `strings.ContainsRune` of an ASCII rune.
unfoldable pub has_byte : ℕ → Text → Bool
has_byte b [] = false
has_byte b (c ∷ s) = c == b || has_byte b s

pub cut-append :
    (sep : ℕ) (s t : Text) → has_byte sep s ≡ false → cut sep (s ++ sep ∷ t) ≡ (s, t, true)
unfolding cut has_byte
cut-append sep [] t h = ground arith
cut-append sep (c ∷ s) t h = ground (arith, cut-append sep s t)

-- What was cut is the text again, and the first part ends at the first separator.
pub cut-eq :
    (sep : ℕ) (s : Text)
    → (cut sep s).2 ≡ true
    → (s ≡ (cut sep s).0 ++ sep ∷ (cut sep s).1) × (has_byte sep (cut sep s).0 ≡ false)
unfolding cut has_byte
cut-eq sep [] h = cc
cut-eq sep (c ∷ s) h = ground (arith, cut-eq sep s)

pub has_byte-append : (b : ℕ) (s t : Text) → has_byte b (s ++ t) ≡ has_byte b s || has_byte b t
unfolding has_byte
has_byte-append b [] t = refl
has_byte-append b (c ∷ s) t = ground (arith, has_byte-append b s t)

unfoldable pub lower_byte : ℕ → ℕ
lower_byte c = if leb b'A' c && leb c b'Z' then c + 32 else c

unfoldable pub lower_bytes : Text → Text
unfolding lower_byte
lower_bytes [] = []
lower_bytes (c ∷ s) = lower_byte c ∷ lower_bytes s

-- `unicode.ToLower` takes U+0130, the bytes 0xC4 0xB0, to the letter i.
unfoldable pub lower_dotted : Text → Text
lower_dotted [] = []
lower_dotted (c ∷ []) = c ∷ []
lower_dotted (c ∷ d ∷ s) =
    let dotted = b'i' ∷ lower_dotted s in
    let other = c ∷ lower_dotted (d ∷ s) in if c == 0xC4 && d == 0xB0 then dotted else other

-- `strings.ToLower`, as far as a comparison with an ASCII word that has no letter k can see it:
-- U+0130 and the Kelvin sign are the only characters outside ASCII with a lower case in it.
unfoldable pub to_lower : Text → Text
unfolding lower_bytes lower_dotted
to_lower s = lower_bytes (lower_dotted s)

-- `strings.EqualFold` with an ASCII word that has neither the letter k nor the letter s, the two
-- that fold with a character outside ASCII.
unfoldable pub equal_fold : Text → Text → Bool
unfolding lower_bytes text_eq
equal_fold s t = text_eq (lower_bytes s) (lower_bytes t)
