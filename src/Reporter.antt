-- ===== src/Reporter.antt =====
-- torch_mojo_backend/distributed/process_group.py, `_desync_reporter`: the thread that reads the
-- watchdog's lines from a pipe, keeps this rank's index of stuck collectives, and acknowledges each
-- incident. Texts are lists of ASCII codes. What a store, a dump or the clock answers is a parameter.
pub mod Loop
pub mod Framing
pub mod Acks
pub mod Index
use torch_mojo_backend.Prelude.{
  ℕ, zero, suc, ◌+◌, ◌-◌, ◌*◌, ◌%◌, max, Bool, true, false, ◌&&◌, ◌||◌, Option, none, some, List,
  [], ◌∷◌, ◌++◌, ◌==◌, leb, if◌then◌else◌, map, is_empty, ℤ, pos, negsuc,
}

abbrev pub Text : Type 0
Text = List ℕ

unfoldable pub same_text : Text → Text → Bool
same_text [] [] = true
same_text [] (d ∷ ds) = false
same_text (c ∷ cs) [] = false
same_text (c ∷ cs) (d ∷ ds) = c == d && same_text cs ds

-- A dictionary with texts as its keys, in the order of insertion
module _ {A : Type 0} where
  unfoldable pub get : Text → List (Text × A) → Option A
  unfolding same_text
  get k [] = none
  get k ((x, a) ∷ d) = let rest = get k d in if same_text x k then some a else rest

  -- `d[k] = a`
  unfoldable pub put : Text → A → List (Text × A) → List (Text × A)
  unfolding same_text
  put k a [] = (k, a) ∷ []
  put k a ((x, b) ∷ d) = let rest = put k a d in if same_text x k then (x, a) ∷ d else (x, b) ∷ rest

  -- `d.pop(k, None)`
  unfoldable pub pop : Text → List (Text × A) → List (Text × A)
  unfolding same_text
  pop k [] = []
  pop k ((x, b) ∷ d) = let rest = pop k d in if same_text x k then d else (x, b) ∷ rest

abbrev pub is_space : ℕ → Bool
is_space c = (leb 9 c && leb c 13) || (leb 28 c && leb c 32)

-- `text.split()`: the words
abbrev pub add_char : ℕ → Bool → List Text → List Text
add_char c true words = words
add_char c false [] = (c ∷ []) ∷ []
add_char c false (w ∷ words) = (c ∷ w) ∷ words

abbrev pub drop_empty : List Text → List Text
drop_empty [] = []
drop_empty ([] ∷ words) = drop_empty words
drop_empty ((c ∷ w) ∷ words) = (c ∷ w) ∷ drop_empty words

-- The pieces between white space, empty ones too
unfoldable pub pieces : Text → List Text
pieces [] = [] ∷ []
pieces (c ∷ cs) = let rest = pieces cs in if is_space c then [] ∷ rest else add_char c false rest

unfoldable pub words_of : Text → List Text
unfolding pieces
words_of text = drop_empty (pieces text)

-- `item.split("=", 1)`, where there is a `=`
unfoldable pub key_value : Text → Option (Text × Text)
key_value [] = none
key_value (c ∷ cs) =
    let rest = key_value cs in
    if c == 61 then some ([], cs) else elim rest [ none ↦ none | some (k, v) ↦ some (c ∷ k, v) ]

abbrev pub put_item : Option (Text × Text) → List (Text × Text) → List (Text × Text)
put_item none d = d
put_item (some (k, v)) d = put k v d

unfoldable pub put_items : List Text → List (Text × Text) → List (Text × Text)
unfolding put key_value
put_items [] d = d
put_items (w ∷ words) d = put_items words (put_item (key_value w) d)

-- `_parse_report`
unfoldable pub parse_report : Text → List (Text × Text)
unfolding words_of put_items
parse_report line = put_items (words_of line) []

abbrev pub is_digit : ℕ → Bool
is_digit c = leb 48 c && leb c 57

-- The digits of `int(text)`, with single underscores between them
unfoldable pub digits : ℕ → Bool → Text → Option ℕ
digits n ended [] = if ended then some n else none
digits n ended (c ∷ cs) =
    let rest = digits (if is_digit c then n * 10 + (c - 48) else n) (is_digit c) cs in
    if is_digit c || (c == 95 && ended) then rest else none

-- -n
abbrev pub negated : ℕ → ℤ
negated zero = pos 0
negated (suc n) = negsuc n

abbrev pub with_sign : Bool → Option ℕ → Option ℤ
with_sign minus none = none
with_sign true (some n) = some (negated n)
with_sign false (some n) = some (pos n)

-- `int(text)`; none is a ValueError
unfoldable pub int_of : Text → Option ℤ
unfolding digits
int_of [] = none
int_of (c ∷ cs) =
    if c == 45
    then with_sign true (digits 0 false cs)
    else if c == 43
    then with_sign false (digits 0 false cs)
    else with_sign false (digits 0 false (c ∷ cs))

-- `z % 255 + 1`
abbrev pub ack_byte : ℤ → ℕ
ack_byte (pos n) = n % 255 + 1
ack_byte (negsuc k) = 255 - k % 255

abbrev pub or_else {ℓ} : {A : Type ℓ} → A → Option A → A
or_else d none = d
or_else d (some a) = a

-- "tid", "id", "0", "resolved"
abbrev pub tid_key : Text
tid_key = 116 ∷ 105 ∷ 100 ∷ []

abbrev pub id_key : Text
id_key = 105 ∷ 100 ∷ []

abbrev pub zero_text : Text
zero_text = 48 ∷ []

abbrev pub resolved_word : Text
resolved_word = 114 ∷ 101 ∷ 115 ∷ 111 ∷ 108 ∷ 118 ∷ 101 ∷ 100 ∷ []

unfoldable pub starts_with : Text → Text → Bool
starts_with [] text = true
starts_with (c ∷ cs) [] = false
starts_with (c ∷ cs) (d ∷ ds) = c == d && starts_with cs ds

-- `line.strip()`
unfoldable pub drop_spaces : Text → Text
drop_spaces [] = []
drop_spaces (c ∷ cs) = let rest = drop_spaces cs in if is_space c then rest else c ∷ cs

unfoldable pub drop_spaces_behind : Text → Text
drop_spaces_behind [] = []
drop_spaces_behind (c ∷ cs) =
    let rest = drop_spaces_behind cs in if is_space c && is_empty rest then [] else c ∷ rest

unfoldable pub strip : Text → Text
unfolding drop_spaces drop_spaces_behind
strip line = drop_spaces_behind (drop_spaces line)
