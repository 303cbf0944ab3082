-- ===== src/Clerk/Command/Arguments.antt =====
-- The list of the words of a text, and how `extract` takes it apart.
use Prim.Native.Char.{Char, code}
use text.Mathlib.Text.{is_eq, ◌==◌ as str_eq}
use ww_raft_kv.Clerk.Text.{extract, is_space, skip_spaces, take_word}
use ww_raft_kv.Prelude.{
  Bool, Bool-cases, List, String, [], ap, false, if◌then◌else◌, inl, inr, refl, subst, sym, true,
  ◌∙◌, ◌∷◌, ◌≡◌, ◌⊎◌,
}
use Prim.Native.String.compare as text_compare

-- A character in front of the first word.
abbrev prepend : Char → List String → List String
prepend c [] = String.◌∷◌ c String.[] ∷ []
prepend c (w ∷ ws) = String.◌∷◌ c w ∷ ws

-- A character in front of a text with these words.
abbrev pub glue : Char → String → List String → List String
glue c String.[] ws = String.◌∷◌ c String.[] ∷ ws
glue c (String.◌∷◌ d s) ws = if is_space (code d) then String.◌∷◌ c String.[] ∷ ws else prepend c ws

-- The longest runs of characters that are no white space.
unfoldable pub words : String → List String
words String.[] = []
words (String.◌∷◌ c s) = let rest = words s in if is_space (code c) then rest else glue c s rest

words-skip_spaces : (s : String) → words (skip_spaces s) ≡ words s
unfolding words skip_spaces
words-skip_spaces String.[] = refl
words-skip_spaces (String.◌∷◌ c s) = elim (Bool-cases (is_space (code c))) [
  | inl e ↦ rw e (words-skip_spaces s)
  | inr e ↦ rw e (rw e refl)
]

words-take_word :
    (c : Char) (s : String)
    → is_space (code c) ≡ false
    → words (String.◌∷◌ c s) ≡ (take_word (String.◌∷◌ c s)).0 ∷ words (take_word (String.◌∷◌ c s)).1
unfolding words take_word
words-take_word c String.[] e = rw e refl
words-take_word c (String.◌∷◌ d s) e = elim (Bool-cases (is_space (code d))) [
  | inl f ↦ rw (e, f) (rw f refl)
  | inr f ↦ rw (e, f) (ap (prepend c) (rw f at (words-take_word d s f)))
]

-- What `skip_spaces` leaves is nothing, or starts with another character.
abbrev Starts : String → Type 0
Starts s =
    (s ≡ String.[])
    ⊎ ((c : Char) × (t : String) × (s ≡ String.◌∷◌ c t) × (is_space (code c) ≡ false))

skip_spaces-Starts : (s : String) → Starts (skip_spaces s)
unfolding skip_spaces
skip_spaces-Starts String.[] = inl refl
skip_spaces-Starts (String.◌∷◌ c s) = elim (Bool-cases (is_space (code c))) [
  | inl e ↦ rw e (skip_spaces-Starts s)
  | inr e ↦ rw e (inr (c, s, refl, e))
]

pub cons-ne-empty : (c : Char) (s : String) → str_eq (String.◌∷◌ c s) "" ≡ false
cons-ne-empty c s = ap is_eq (text_compare.cons-nil c s)

-- The words, from what a word taken leaves.
abbrev pub Taken : String → String × String → Type 0
Taken s r = words s ≡ (if str_eq r.0 "" then [] else r.0 ∷ words r.1)

str_eq_word :
    (c : Char) (t : String)
    → is_space (code c) ≡ false
    → str_eq (take_word (String.◌∷◌ c t)).0 "" ≡ false
unfolding take_word
str_eq_word c t f = rw f (cons-ne-empty c (take_word t).0)

if-not_empty : {b : Bool} (ws : List String) → b ≡ false → (if b then [] else ws) ≡ ws
if-not_empty ws e = rw e refl

word_Taken :
    (c : Char) (t : String)
    → is_space (code c) ≡ false
    → Taken (String.◌∷◌ c t) (take_word (String.◌∷◌ c t))
word_Taken c t f = words-take_word c t f ∙ sym (if-not_empty _ (str_eq_word c t f))

pub extract-Taken : (s : String) → Taken s (extract s)
unfolding extract
extract-Taken s = elim (skip_spaces-Starts s) [
  | inl e ↦ sym (words-skip_spaces s) ∙ rw e (unfold words take_word in refl)
  | inr (c, t, e, f) ↦ sym (words-skip_spaces s) ∙ rw e (word_Taken c t f)
]

-- No word is left, or the one that `extract` takes comes first.
pub words_none : (s : String) → str_eq (extract s).0 "" ≡ true → words s ≡ []
words_none s e =
    subst (λ b. words s ≡ (if b then [] else (extract s).0 ∷ words (extract s).1)) e
      (extract-Taken s)

pub words_some :
    (s : String) → str_eq (extract s).0 "" ≡ false → words s ≡ (extract s).0 ∷ words (extract s).1
words_some s e =
    subst (λ b. words s ≡ (if b then [] else (extract s).0 ∷ words (extract s).1)) e
      (extract-Taken s)
