-- ===== src/Normalize.antt =====
-- src/gutil.cpp: `normalize` and `replace_all`, over byte strings. The two regular expressions of
-- `normalize` are the standard library's, parameters here.
pub mod Replaced
use gqlite.Prelude.{
  ℕ, zero, suc, ◌+◌, ◌≡◌, ◌≢◌, refl, Bool, true, false, not, ◌&&◌, Option, none, some, List, [],
  ◌∷◌, ◌++◌, ◌==◌, if◌then◌else◌, length, take, drop, arith,
}
use gqlite.Split.{Bytes}

pub data ChangeStat : Type 0 where
  start splash end : ChangeStat

-- The loop over the characters, with `previous` and `cur`: 34 is `"`, 39 is `'` and 92 a backslash.
unfoldable pub change_quotes : ChangeStat → ChangeStat → Bytes → Bytes
change_quotes previous cur [] = []
change_quotes previous cur (c ∷ s) =
    let escaped = 34 ∷ change_quotes cur cur s in
    let closed = 39 ∷ change_quotes end end s in
    let opened = 39 ∷ change_quotes start start s in
    let splashed = c ∷ change_quotes splash cur s in
    let kept = c ∷ change_quotes cur cur s in
    if c == 34
    then (elim previous [ splash ↦ escaped | start ↦ closed | end ↦ opened ])
    else if c == 92
    then splashed
    else kept

unfoldable pub is_prefix : Bytes → Bytes → Bool
is_prefix [] s = true
is_prefix (o ∷ os) [] = false
is_prefix (o ∷ os) (c ∷ s) = o == c && is_prefix os s

abbrev pub next_place : Option ℕ → Option ℕ
next_place none = none
next_place (some i) = some (suc i)

-- `find`: where the first occurrence begins.
unfoldable pub find : Bytes → Bytes → Option ℕ
unfolding is_prefix
find origin [] = if is_prefix origin [] then some 0 else none
find origin (c ∷ s) =
    let later = next_place (find origin s) in if is_prefix origin (c ∷ s) then some 0 else later

-- The loop, with the text before and behind `pos`; `none` if `fuel` rounds do not end it.
unfoldable pub replace_from : ℕ → Bytes → Bytes → Bytes → Bytes → Option Bytes
unfolding find
replace_from zero origin newer done rest = none
replace_from (suc fuel) origin newer done rest = elim (find origin rest) [
  | none ↦ some (done ++ rest)
  | some i ↦
      replace_from fuel origin newer (done ++ (take i rest ++ newer))
        (drop (i + length origin) rest)
]

unfoldable pub replace_all : Bytes → Bytes → Bytes → Option Bytes
unfolding replace_from
replace_all input origin newer = replace_from (suc (length input)) origin newer [] input

-- The text `\u0000`.
abbrev pub null_text : Bytes
null_text = 92 ∷ 117 ∷ 48 ∷ 48 ∷ 48 ∷ 48 ∷ []

module _ (datetimes arrays : Bytes → Bytes) where
  unfoldable pub normalize : Bytes → Option Bytes
  unfolding change_quotes replace_all
  normalize gql = elim (replace_all (change_quotes end end gql) null_text []) [
    | none ↦ none
    | some result ↦ some (arrays (datetimes result))
  ]

abbrev pub is_splash : ChangeStat → Bool
is_splash splash = true
is_splash _ = false

-- A character, for whether a backslash stands before it.
abbrev pub requoted : Bool → ℕ → ℕ
requoted escaped c = if c == 34 && not escaped then 39 else c

abbrev pub requote : Bool → Bytes → Bytes
requote escaped [] = []
requote escaped (c ∷ s) = requoted escaped c ∷ requote (c == 92) s

change_quotes-requote :
    (s : Bytes) (previous cur : ChangeStat)
    → is_splash cur ≡ false
    → change_quotes previous cur s ≡ requote (is_splash previous) s
unfolding change_quotes
change_quotes-requote [] previous cur h = refl
change_quotes-requote (c ∷ s) start cur h = ground (
  arith,
  change_quotes-requote s cur cur h,
  change_quotes-requote s end end refl,
  change_quotes-requote s splash cur h,
)
change_quotes-requote (c ∷ s) splash cur h =
    ground (arith, change_quotes-requote s cur cur h, change_quotes-requote s splash cur h)
change_quotes-requote (c ∷ s) end cur h = ground (
  arith,
  change_quotes-requote s cur cur h,
  change_quotes-requote s start start refl,
  change_quotes-requote s splash cur h,
)

-- The state machine of the quotes.
pub change_quotes_lem : (s : Bytes) → change_quotes end end s ≡ requote false s
change_quotes_lem s = change_quotes-requote s end end refl
