-- ===== src/Clerk/Text/Words.antt =====
-- The words of a text, and what `extract` takes of them.
use ww_raft_kv.Clerk.Text.{extract, is_space, skip_spaces, take_word}
use ww_raft_kv.Prelude.{String, ap, false, refl, sym, ◌∙◌, ◌≡◌}
use Prim.Native.Char.{code}
use Prim.Native.String.append
use Prim.Native.String.{◌++◌ as str_append}

-- No white space is among the characters.
abbrev pub NoSpace : String → Type 0
NoSpace String.[] = Unit
NoSpace (String.◌∷◌ c s) = (is_space (code c) ≡ false) × NoSpace s

-- A text that `extract` takes whole: it is not empty, and has no white space.
abbrev pub IsWord : String → Type 0
IsWord String.[] = ⊥
IsWord (String.◌∷◌ c s) = (is_space (code c) ≡ false) × NoSpace s

abbrev pub space : String
space = " "

pub str_append_assoc :
    (r s t : String) → str_append (str_append r s) t ≡ str_append r (str_append s t)
str_append_assoc String.[] s t =
    ap (λ x. str_append x t) (append.nil s) ∙ sym (append.nil (str_append s t))
str_append_assoc (String.◌∷◌ c r) s t =
    ap (λ x. str_append x t) (append.cons c r s)
    ∙ append.cons c (str_append r s) t
    ∙ ap (λ x. String.◌∷◌ c x) (str_append_assoc r s t)
    ∙ sym (append.cons c r (str_append s t))

pub space_append : (s : String) → str_append space s ≡ String.◌∷◌ " " s
space_append s = append.cons " " "" s ∙ ap (λ x. String.◌∷◌ " " x) (append.nil s)

take_word-end : (w : String) → NoSpace w → take_word w ≡ (w, "")
unfolding take_word
take_word-end String.[] h = refl
take_word-end (String.◌∷◌ c w) h = rw (h.0, take_word-end w h.1) refl

take_word-space :
    (w s : String) → NoSpace w → take_word (str_append w (String.◌∷◌ " " s)) ≡ (w, String.◌∷◌ " " s)
unfolding take_word
take_word-space String.[] s h = rw (append.nil (String.◌∷◌ " " s)) refl
take_word-space (String.◌∷◌ c w) s h =
    rw (append.cons c w (String.◌∷◌ " " s)) (rw (h.0, take_word-space w s h.1) refl)

skip_spaces-word : (w s : String) → IsWord w → skip_spaces (str_append w s) ≡ str_append w s
unfolding skip_spaces
skip_spaces-word String.[] s h = absurd h
skip_spaces-word (String.◌∷◌ c w) s h = rw (append.cons c w s) (rw h.0 refl)

word_NoSpace : (w : String) → IsWord w → NoSpace w
word_NoSpace String.[] h = absurd h
word_NoSpace (String.◌∷◌ c w) h = h

-- A word with white space behind it is taken, and the white space is left.
pub extract_word :
    (w s : String)
    → IsWord w
    → extract (str_append w (str_append space s)) ≡ (w, str_append space s)
unfolding extract
extract_word w s h =
    ap take_word (skip_spaces-word w (str_append space s) h)
    ∙ rw (space_append s) (take_word-space w s (word_NoSpace w h))

-- White space in front of a word is skipped.
pub extract-space : (s : String) → extract (str_append space s) ≡ extract s
unfolding extract skip_spaces
extract-space s = rw (space_append s) refl

skip_spaces-last : (w : String) → IsWord w → skip_spaces w ≡ w
unfolding skip_spaces
skip_spaces-last String.[] h = absurd h
skip_spaces-last (String.◌∷◌ c w) h = rw h.0 refl

-- The last word is taken, and nothing is left.
pub extract_last : (w : String) → IsWord w → extract w ≡ (w, "")
unfolding extract
extract_last w h = ap take_word (skip_spaces-last w h) ∙ take_word-end w (word_NoSpace w h)
