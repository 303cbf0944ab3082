-- ===== src/Clerk/Text.antt =====
-- `std::string` as a key: its order, and the words that `operator>>` takes from an
-- `std::istringstream`.
pub mod Order
pub mod Words
use ww_raft_kv.Prelude.{Bool, String, if◌then◌else◌, leb, ℕ, ◌&&◌, ◌==◌, ◌||◌}
use ww_raft_kv.SkipList.Types.{Params}
use Prim.Native.Char.{code}
use Prim.Native.String.{compare}
use text.Mathlib.Text.{◌==◌ as str_eq, is_lt}

-- The white space of the classic locale.
abbrev pub is_space : ℕ → Bool
is_space c = c == 32 || (leb 9 c && leb c 13)

unfoldable pub skip_spaces : String → String
skip_spaces String.[] = String.[]
skip_spaces (String.◌∷◌ c s) = if is_space (code c) then skip_spaces s else String.◌∷◌ c s

-- The characters up to a white space, and what is left.
unfoldable pub take_word : String → String × String
take_word String.[] = (String.[], String.[])
take_word (String.◌∷◌ c s) =
    let rest = take_word s in
    if is_space (code c) then (String.[], String.◌∷◌ c s) else (String.◌∷◌ c rest.0, rest.1)

-- `stream >> word`: the word, which stays empty where there is none left, and the rest.
unfoldable pub extract : String → String × String
unfolding skip_spaces take_word
extract s = take_word (skip_spaces s)

-- `operator<` compares bytes, whose order in UTF-8 is that of the characters.
unfoldable pub text_params : (ℕ → ℕ) → Params String String
text_params rand = record {
  less = λ s t. is_lt (compare s t);
  equal = str_eq;
  default_key = "";
  default_value = "";
  rand = rand;
}
