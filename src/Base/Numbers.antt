-- ===== src/Base/Numbers.antt =====
-- `strconv.FormatUint`, `strconv.ParseUint` and `hex.EncodeToString`, and that parsing undoes
-- formatting in base 10.
use Prim.Native.Nat.{ℕ, zero, suc, ◌+◌, ◌-◌, ◌*◌, ◌/◌, ◌%◌, ◌^◌, ◌<◌, ◌≤◌}
use mathlib.Core.Path.{◌≡◌, refl, ◌∙◌}
use mathlib.Core.Logic.{◌≢◌}
use mathlib.Core.Bool.{false, ◌&&◌}
use mathlib.Core.Option.{Option, none, some}
use mathlib.Core.List.{List, [], ◌∷◌}
use native.Mathlib.Omega.{arith}
use libvirt_rest_api.Base.Tests.{◌==◌, if◌then◌else◌, ltb, leb}
use libvirt_rest_api.Base.Texts.{Text, has_byte}
use libvirt_rest_api.Base.Int.{ℤ, pos, negsuc}

unfoldable pub digit : ℕ → ℕ
digit d = if ltb d 10 then b'0' + d else b'a' + (d - 10)

-- The digits of `n` before `acc`, in a base from 2 to 36. Each round divides by the base, so
-- `n + 1` rounds suffice.
format_from : ℕ → ℕ → ℕ → Text → Text
unfolding digit
format_from base zero n acc = acc
format_from base (suc f) n acc =
    let rest = format_from base f (n / base) (digit (n % base) ∷ acc) in
    if ltb n base then digit n ∷ acc else rest

-- `strconv.FormatUint(n, base)`, and `FormatInt` of a number that is not negative.
unfoldable pub format_uint : ℕ → ℕ → Text
unfolding format_from
format_uint n base = format_from base (suc n) n []

-- `hex.EncodeToString`.
unfoldable pub hex_encode : List ℕ → Text
unfolding digit
hex_encode [] = []
hex_encode (b ∷ bytes) = digit (b / 16) ∷ digit (b % 16) ∷ hex_encode bytes

-- The loop of `ParseUint`: `none` is a syntax or a range error.
unfoldable pub parse_from : ℕ → ℕ → Text → Option ℕ
parse_from most n [] = some n
parse_from most n (c ∷ s) =
    let rest = parse_from most (n * 10 + (c - b'0')) s in
    if leb b'0' c && leb c b'9' && leb (n * 10 + (c - b'0')) most then rest else none

-- `strconv.ParseUint(s, 10, bits)`.
unfoldable pub parse_uint : ℕ → Text → Option ℕ
unfolding parse_from
parse_uint bits [] = none
parse_uint bits (c ∷ s) = parse_from (2 ^ bits - 1) 0 (c ∷ s)

-- `strconv.ParseUint` with another bound than a power of 2.
abbrev parse_up_to : ℕ → Text → Option ℕ
parse_up_to most [] = none
parse_up_to most (c ∷ s) = parse_from most 0 (c ∷ s)

abbrev negated : Option ℕ → Option ℤ
negated none = none
negated (some zero) = some (pos zero)
negated (some (suc n)) = some (negsuc n)

abbrev unsigned : Option ℕ → Option ℤ
unsigned none = none
unsigned (some n) = some (pos n)

-- `strconv.Atoi`, where an `int` has 64 bits.
unfoldable pub atoi : Text → Option ℤ
unfolding parse_from
atoi [] = none
atoi (c ∷ s) =
    let plain = unsigned (parse_up_to (2 ^ 63 - 1) (c ∷ s)) in
    if c == b'-'
    then negated (parse_up_to (2 ^ 63) s)
    else if c == b'+'
    then unsigned (parse_up_to (2 ^ 63 - 1) s)
    else plain

-- `%d` of an integer.
unfoldable pub format_int : ℤ → Text
unfolding format_uint
format_int (pos n) = format_uint n 10
format_int (negsuc n) = b'-' ∷ format_uint (suc n) 10

parse_from-format_from :
    (most f n : ℕ) (acc : Text)
    → n < f
    → n ≤ most
    → parse_from most 0 (format_from 10 f n acc) ≡ parse_from most n acc
unfolding parse_from format_from
parse_from-format_from most zero n acc h k = absurd (omega arith)
parse_from-format_from most (suc f) n acc h k =
    ground (arith, parse_from-format_from most f (n / 10) (digit (n % 10) ∷ acc))

format_from-ne-nil : (f n c : ℕ) (acc : Text) → format_from 10 f n (c ∷ acc) ≢ []
unfolding format_from
format_from-ne-nil zero n c acc = ground arith
format_from-ne-nil (suc f) n c acc =
    ground (arith, format_from-ne-nil f (n / 10) (digit (n % 10)) (c ∷ acc))

pub format_uint-ne-nil : (n : ℕ) → format_uint n 10 ≢ []
unfolding format_uint
format_uint-ne-nil n = ground (arith, format_from-ne-nil n (n / 10) (digit (n % 10)) [])

parse_uint-ne-nil :
    (bits : ℕ) (s : Text) → s ≢ [] → parse_uint bits s ≡ parse_from (2 ^ bits - 1) 0 s
unfolding parse_uint
parse_uint-ne-nil bits [] h = absurd (h refl)
parse_uint-ne-nil bits (c ∷ s) h = refl

parse_from-format_uint : (most n : ℕ) → n ≤ most → parse_from most 0 (format_uint n 10) ≡ some n
unfolding format_uint parse_from
parse_from-format_uint most n h = parse_from-format_from most (suc n) n [] (omega arith) h

-- Any number of the given width is read back from its digits.
pub parse_uint-format_uint :
    (bits n : ℕ) → n < 2 ^ bits → parse_uint bits (format_uint n 10) ≡ some n
parse_uint-format_uint bits n h =
    parse_uint-ne-nil bits _ (format_uint-ne-nil n) ∙ parse_from-format_uint _ n (omega arith)

-- A byte that is no digit in any base.
abbrev IsNoDigit : ℕ → Type 0
IsNoDigit b = (b'9' < b) × (b < b'a')

digit-ne : (b d : ℕ) → IsNoDigit b → (digit d == b) ≡ false
unfolding digit
digit-ne b d h = ground arith

has_byte-format_from :
    (b base f n : ℕ) (acc : Text)
    → IsNoDigit b
    → has_byte b acc ≡ false
    → has_byte b (format_from base f n acc) ≡ false
unfolding format_from has_byte
has_byte-format_from b base zero n acc h k = k
has_byte-format_from b base (suc f) n acc h k = ground (
  arith,
  digit-ne b n h,
  digit-ne b (n % base) h,
  has_byte-format_from b base f (n / base) (digit (n % base) ∷ acc),
)

-- The digits hold no byte between the decimal and the letter digits, such as a colon.
pub has_byte-format_uint :
    (b n base : ℕ) → b'9' < b → b < b'a' → has_byte b (format_uint n base) ≡ false
unfolding format_uint has_byte
has_byte-format_uint b n base h k = has_byte-format_from b base (suc n) n [] (h, k) refl

pub has_byte-hex_encode :
    (b : ℕ) (bytes : List ℕ) → b'9' < b → b < b'a' → has_byte b (hex_encode bytes) ≡ false
unfolding hex_encode has_byte
has_byte-hex_encode b [] h k = refl
has_byte-hex_encode b (a ∷ bytes) h k =
    ground (
      arith,
      digit-ne b (a / 16) (h, k),
      digit-ne b (a % 16) (h, k),
      has_byte-hex_encode b bytes h k,
    )
