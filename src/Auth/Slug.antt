-- ===== src/Auth/Slug.antt =====
-- The slug of a new tenant: `slugifyRegistrationValue` of internal/service/auth_service.go.
use guestbook.Prelude.{
  String, is_empty, ◌≡◌, refl, ◌∙◌, Bool, true, false, not, ◌&&◌, ◌||◌, arith, if◌then◌else◌,
}
use guestbook.Auth.Rows.{Libraries}
use guestbook.Auth.Service.{to_address}
use guestbook.Auth.Register.{
  is_slug_char, is_dash, slug_loop, trim_dashes_left, trim_dashes_right, slugify,
}

-- Words of small letters and digits, with one dash between two words; `after_word` says that the
-- text before ended in a word, `open_end` that it may end in a dash.
unfoldable pub are_words : Bool → Bool → String → Bool
unfolding is_dash
are_words open_end after_word String.[] = after_word || open_end
are_words open_end after_word (String.◌∷◌ c s) =
    let word = are_words open_end true s in
    let dash = are_words open_end false s in
    if is_slug_char c then word else is_dash c && (after_word && dash)

-- A slug is empty, or words.
abbrev pub IsSlug : String → Type 0
IsSlug s = (is_empty s || are_words false false s) ≡ true

loop-words :
    (started last_dash : Bool) (s : String)
    → are_words true (started && not last_dash) (slug_loop started last_dash s) ≡ true
unfolding slug_loop are_words is_dash
loop-words started last_dash String.[] = ground arith
loop-words started last_dash (String.◌∷◌ c s) =
    ground (arith, loop-words true false s, loop-words true true s, loop-words started last_dash s)

-- Words do not start with a dash.
left-words : (s : String) → are_words true false s ≡ true → trim_dashes_left s ≡ s
unfolding are_words trim_dashes_left
left-words String.[] h = refl
left-words (String.◌∷◌ c s) h = ground (arith, h)

empty-words : (s : String) → is_empty s ≡ true → are_words false true s ≡ true
unfolding are_words
empty-words String.[] h = refl
empty-words (String.◌∷◌ c s) h = cc

right-words :
    (after_word : Bool) (s : String)
    → are_words true after_word s ≡ true
    → (is_empty (trim_dashes_right s) || are_words false after_word (trim_dashes_right s)) ≡ true
unfolding are_words trim_dashes_right
right-words after_word String.[] h = refl
right-words after_word (String.◌∷◌ c s) h =
    ground (arith, h, right-words true s, right-words false s, empty-words (trim_dashes_right s))

-- The small letters and the digits of a text, in order.
unfoldable pub letters : String → String
letters String.[] = String.[]
letters (String.◌∷◌ c s) =
    let rest = letters s in if is_slug_char c then String.◌∷◌ c rest else rest

loop-letters :
    (started last_dash : Bool) (s : String) → letters (slug_loop started last_dash s) ≡ letters s
unfolding slug_loop letters
loop-letters started last_dash String.[] = refl
loop-letters started last_dash (String.◌∷◌ c s) =
    ground
      (arith, loop-letters true false s, loop-letters true true s, loop-letters started last_dash s)

right-letters : (s : String) → letters (trim_dashes_right s) ≡ letters s
unfolding trim_dashes_right letters is_dash
right-letters String.[] = refl
right-letters (String.◌∷◌ c s) =
    ground (arith, right-letters s, empty-letters (trim_dashes_right s))
  where
    empty-letters : (t : String) → is_empty t ≡ true → letters t ≡ String.[]
    empty-letters String.[] h = refl
    empty-letters (String.◌∷◌ d t) h = cc

-- The slug made from any name is empty or consists of words of small letters and digits with one
-- dash between two words and none at the ends, and its letters and digits are those of the name,
-- trimmed and in small letters, in order.
pub slugify-IsSlug :
    (c : Libraries) (name : String)
    → IsSlug (slugify c name) × (letters (slugify c name) ≡ letters (to_address c name))
unfolding slugify
slugify-IsSlug c name =
    let text = to_address c name in
    let words = loop-words false false text in
    let whole = slug_loop false false text in
    rw (left-words whole words)
      (right-words false whole words, right-letters whole ∙ loop-letters false false text)
