-- ===== src/Api/Mux.antt =====
-- The part of `http.ServeMux` that internal/api/server.go relies on, for patterns that begin with a
-- slash and are ASCII: which of them `HandleFunc` refuses, and what a clean path gives them. A pattern
-- names neither a method nor a host; it is refused if it is malformed or if it conflicts with one
-- that was registered before, since neither is the more specific one.
mod Tests
use libvirt_rest_api.Base.{
  ℕ, ◌+◌, ◌*◌, ◌-◌, Bool, true, false, not, ◌&&◌, ◌||◌, List, [], ◌∷◌, ◌++◌, Option, none, some,
  Text, text, text_eq, leb, ◌==◌, if◌then◌else◌,
}

-- A segment is a text, a wildcard for one segment, or one for all that is left. `{$}`, the end after
-- a slash, is the text "/".
pub data Segment : Type 0 where
  literal : Text → Segment
  wildcard : (name : Text) → Segment
  multi : (name : Text) → Segment

-- The texts between slashes: `current` is the one that is being read.
unfoldable split_slashes : Text → Text → List Text
split_slashes current [] = current ∷ []
split_slashes current (c ∷ rest) =
    let next = split_slashes [] rest in
    let longer = split_slashes (current ++ c ∷ []) rest in
    if c == b'/' then current ∷ next else longer

abbrev has : (ℕ → Bool) → Text → Bool
has p [] = false
has p (c ∷ rest) = p c || has p rest

abbrev is_blank : ℕ → Bool
is_blank c = c == b' ' || c == b'\t'

abbrev is_letter : ℕ → Bool
is_letter c = leb b'a' c && leb c b'z' || leb b'A' c && leb c b'Z' || c == b'_'

abbrev is_digit : ℕ → Bool
is_digit c = leb b'0' c && leb c b'9'

-- A name is a Go identifier.
abbrev is_name : Text → Bool
is_name [] = false
is_name (c ∷ rest) = is_letter c && not (has (λ d. not (is_letter d || is_digit d)) rest)

abbrev hex_value : ℕ → Option ℕ
hex_value c =
    if is_digit c
    then some (c - b'0')
    else if leb b'a' c && leb c b'f'
    then some (c - 87)
    else if leb b'A' c && leb c b'F'
    then some (c - 55)
    else none

abbrev put_byte : Option ℕ → Option ℕ → Option Text → Option Text
put_byte (some a) (some b) (some rest) = some ((16 * a + b) ∷ rest)
put_byte _ _ _ = none

abbrev put_plain : ℕ → Option Text → Option Text
put_plain c none = none
put_plain c (some rest) = some (c ∷ rest)

-- `url.PathUnescape`; a text that is not an escaping stays as it is.
unfoldable unescaped : Text → Option Text
unescaped [] = some []
unescaped (c ∷ []) = if c == b'%' then none else some (c ∷ [])
unescaped (c ∷ d ∷ []) =
    let rest = unescaped (d ∷ []) in if c == b'%' then none else put_plain c rest
unescaped (c ∷ d ∷ e ∷ later) =
    let rest = unescaped (d ∷ e ∷ later) in
    let after = unescaped later in
    if c == b'%' then put_byte (hex_value d) (hex_value e) after else put_plain c rest

abbrev or_same : Text → Option Text → Text
or_same s none = s
or_same s (some t) = t

-- What stands before a last brace.
unfoldable unbraced : Text → Option Text
unbraced [] = none
unbraced (c ∷ []) = if c == b'}' then some [] else none
unbraced (c ∷ d ∷ rest) = put_plain c (unbraced (d ∷ rest))

-- A name, and whether three dots follow it.
unfoldable undotted : Text → Text × Bool
undotted [] = ([], false)
undotted (c ∷ rest) =
    let (name, dots) = undotted rest in
    if text_eq (c ∷ rest) (text "...") then ([], true) else (c ∷ name, dots)

abbrev named : Text × Bool → (is_last : Bool) → Option Segment
named (name, dots) is_last =
    if not (is_name name) || dots && not is_last
    then none
    else some (if dots then multi name else wildcard name)

abbrev braced : Option Text → (is_last : Bool) → Option Segment
braced none is_last = none
braced (some name) is_last =
    if text_eq name (text "$")
    then (if is_last then some (literal (text "/")) else none)
    else named (undotted name) is_last

-- One segment of `parsePattern`; `is_last` says that nothing follows it.
unfoldable parse_segment : Text → (is_last : Bool) → Option Segment
unfolding unescaped unbraced undotted
parse_segment [] is_last = some (if is_last then multi [] else literal [])
parse_segment (c ∷ rest) is_last =
    if c == b'{'
    then braced (unbraced rest) is_last
    else if has (λ d. d == b'{') rest
    then none
    else some (literal (or_same (c ∷ rest) (unescaped (c ∷ rest))))

abbrev names_of : Segment → List Text
names_of (literal _) = []
names_of (wildcard name) = name ∷ []
names_of (multi []) = []
names_of (multi (c ∷ name)) = (c ∷ name) ∷ []

abbrev has_name : Text → List Segment → Bool
has_name name [] = false
has_name name (segment ∷ rest) = one_of_names (names_of segment) || has_name name rest
  where
    one_of_names : List Text → Bool
    one_of_names [] = false
    one_of_names (other ∷ _) = text_eq other name

abbrev repeats : List Text → List Segment → Bool
repeats [] rest = false
repeats (name ∷ _) rest = has_name name rest

-- A name may stand in a pattern once.
abbrev put_segment : Option Segment → Option (List Segment) → Option (List Segment)
put_segment (some segment) (some rest) =
    if repeats (names_of segment) rest then none else some (segment ∷ rest)
put_segment _ _ = none

unfoldable parse_segments : List Text → Option (List Segment)
unfolding parse_segment
parse_segments [] = some []
parse_segments (s ∷ []) = put_segment (parse_segment s true) (some [])
parse_segments (s ∷ t ∷ rest) = put_segment (parse_segment s false) (parse_segments (t ∷ rest))

-- `parsePattern`. A blank would end a method, which a slash cannot begin.
unfoldable pub parse_pattern : Text → Option (List Segment)
unfolding parse_segments split_slashes
parse_pattern [] = none
parse_pattern (c ∷ path) =
    if not (c == b'/') || has is_blank path then none else parse_segments (split_slashes [] path)

-- How the paths of two patterns relate.
pub data Relation : Type 0 where
  equivalent more_general more_specific disjoint overlaps : Relation

abbrev pub combine : Relation → Relation → Relation
combine equivalent r = r
combine disjoint _ = disjoint
combine overlaps disjoint = disjoint
combine overlaps _ = overlaps
combine more_general equivalent = more_general
combine more_general more_specific = overlaps
combine more_general r = r
combine more_specific equivalent = more_specific
combine more_specific more_general = overlaps
combine more_specific r = r

-- A wildcard does not stand for the end after a slash.
abbrev pub compare_segments : Segment → Segment → Relation
compare_segments (multi _) (multi _) = equivalent
compare_segments (multi _) _ = more_general
compare_segments _ (multi _) = more_specific
compare_segments (wildcard _) (wildcard _) = equivalent
compare_segments (wildcard _) (literal s) = if text_eq s (text "/") then disjoint else more_general
compare_segments (literal s) (wildcard _) = if text_eq s (text "/") then disjoint else more_specific
compare_segments (literal s) (literal t) = if text_eq s t then equivalent else disjoint

abbrev pub ends_in_multi : List Segment → Bool
ends_in_multi [] = false
ends_in_multi (multi _ ∷ []) = true
ends_in_multi (_ ∷ []) = false
ends_in_multi (_ ∷ s ∷ rest) = ends_in_multi (s ∷ rest)

-- What is left of a pattern that is longer matches only if the other one ends in a multi wildcard.
abbrev pub compare_paths :
    (p_multi q_multi : Bool) → Relation → List Segment → List Segment → Relation
compare_paths p_multi q_multi relation [] [] = relation
compare_paths p_multi q_multi relation [] (_ ∷ _) =
    if p_multi then combine relation more_general else disjoint
compare_paths p_multi q_multi relation (_ ∷ _) [] =
    if q_multi then combine relation more_specific else disjoint
compare_paths p_multi q_multi relation (s ∷ p) (t ∷ q) =
    compare_paths p_multi q_multi (combine relation (compare_segments s t)) p q

-- `conflictsWith`: some path matches both, and neither pattern is the more specific one.
abbrev pub is_conflict : Relation → Bool
is_conflict equivalent = true
is_conflict overlaps = true
is_conflict _ = false

unfoldable pub conflicts : List Segment → List Segment → Bool
conflicts p q = is_conflict (compare_paths (ends_in_multi p) (ends_in_multi q) equivalent p q)

abbrev pub conflicts_parsed : List Segment → Option (List Segment) → Bool
conflicts_parsed p none = false
conflicts_parsed p (some q) = conflicts p q

unfoldable pub conflicts_any : List Segment → List Text → Bool
unfolding conflicts parse_pattern
conflicts_any p [] = false
conflicts_any p (path ∷ rest) = conflicts_parsed p (parse_pattern path) || conflicts_any p rest

abbrev clear_of : List Text → Option (List Segment) → Bool
clear_of paths none = false
clear_of paths (some p) = not (conflicts_any p paths)

-- `HandleFunc` takes the pattern, after those of the other paths, instead of a panic.
unfoldable pub accepts : List Text → Text → Bool
unfolding conflicts_any parse_pattern
accepts paths path = clear_of paths (parse_pattern path)

abbrev pattern_or_none : Option (List Segment) → List Segment
pattern_or_none none = []
pattern_or_none (some p) = p

unfoldable pub pattern_of : Text → List Segment
unfolding parse_pattern
pattern_of path = pattern_or_none (parse_pattern path)

abbrev join_path : List Text → Text
join_path [] = []
join_path (t ∷ []) = t
join_path (t ∷ u ∷ rest) = t ++ (b'/' ∷ join_path (u ∷ rest))

-- The end after a slash is an empty segment of the path.
abbrev stands_for : Text → Text → Bool
stands_for s t = text_eq s t || text_eq s (text "/") && text_eq t []

unfoldable pub match_path : List Segment → List Text → Option (List (Text × Text))
match_path [] [] = some []
match_path [] (_ ∷ _) = none
match_path (_ ∷ _) [] = none
match_path (multi [] ∷ pattern) (t ∷ path) = some []
match_path (multi (c ∷ name) ∷ pattern) (t ∷ path) = some ((c ∷ name, join_path (t ∷ path)) ∷ [])
match_path (literal s ∷ pattern) (t ∷ path) =
    let rest = match_path pattern path in if stands_for s t then rest else none
match_path (wildcard name ∷ pattern) ([] ∷ path) = none
match_path (wildcard name ∷ pattern) ((c ∷ t) ∷ path) = elim (match_path pattern path) [
  | none ↦ none
  | some values ↦ some ((name, c ∷ t) ∷ values)
]
