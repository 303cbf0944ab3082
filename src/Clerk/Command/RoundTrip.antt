-- ===== src/Clerk/Command/RoundTrip.antt =====
-- raftkv/raft-core/src/Raft.cpp writes the commands, raftkv/raft-app/src/RaftClerk.cpp reads them.
use ww_raft_kv.Clerk.Command.{StatusCode, Store, apply_command, created, default, status_of}
use ww_raft_kv.Clerk.Command.Arguments.{cons-ne-empty, words, words_some}
use ww_raft_kv.Clerk.Command.Effect.{Content, Steps, apply_command-effect, content, effect}
use ww_raft_kv.Clerk.Text.{extract, text_params}
use ww_raft_kv.Clerk.Text.Words.{
  IsWord, extract_last, extract_word, space, space_append, str_append_assoc,
}
use ww_raft_kv.Prelude.{
  List, String, [], ap, false, if◌then◌else◌, none, not, refl, some, subst, ℕ, ◌&&◌, ◌∙◌, ◌∷◌, ◌≡◌,
}
use ww_raft_kv.SkipList.Shape.{Entry, Shape}
use Prim.Native.String.{◌++◌ as str_append}
use text.Mathlib.Text.{◌==◌ as str_eq}
use ww_raft_kv.KvStore.Map.{is_none}
use ww_raft_kv.Raft.Client.{command_of}
use ww_raft_kv.Raft.Message.{OperationType}

-- What a client asks for, as a step of the map. A read is no command.
unfoldable pub requested : OperationType → String → String → Content → StatusCode × Content
unfolding status_of
requested OperationType.put key value f =
    (status_of (is_none (f key)), λ k. if is_none (f key) && str_eq key k then some value else f k)
requested OperationType.update key value f =
    (created, λ k. if str_eq key k then some value else f k)
requested OperationType.delete key value f =
    (status_of (not (is_none (f key))), λ k. if str_eq key k then none else f k)
requested OperationType.get key value f = (default, f)

IsWord-ne : (w : String) → IsWord w → str_eq w "" ≡ false
IsWord-ne String.[] h = absurd h
IsWord-ne (String.◌∷◌ c w) h = cons-ne-empty c w

words-space : (s : String) → words (str_append space s) ≡ words s
unfolding words
words-space s = rw (space_append s) refl

words_first : (w s : String) → IsWord w → words (str_append w (str_append space s)) ≡ w ∷ words s
words_first w s h =
    let taken = extract_word w s h in
    let v = str_append w (str_append space s) in
    let not_empty : str_eq (extract v).0 "" ≡ false = rw taken (IsWord-ne w h) in
    words_some v not_empty ∙ rw taken (ap (λ ws. w ∷ ws) (words-space s))

words_last : (w : String) → IsWord w → words w ≡ w ∷ []
words_last w h =
    let taken = extract_last w h in
    let not_empty : str_eq (extract w).0 "" ≡ false = rw taken (IsWord-ne w h) in
    words_some w not_empty ∙ rw taken (unfold words in refl)

-- The words of a command with one or two arguments.
words_one :
    (op key : String)
    → IsWord op
    → IsWord key
    → words (str_append (str_append op space) key) ≡ op ∷ key ∷ []
words_one op key o k =
    ap words (str_append_assoc op space key)
    ∙ words_first op key o
    ∙ ap (λ ws. op ∷ ws) (words_last key k)

words_two :
    (op key value : String)
    → IsWord op
    → IsWord key
    → IsWord value
    → words (str_append (str_append op space) (str_append key (str_append space value)))
      ≡ op ∷ key ∷ value ∷ []
words_two op key value o k v =
    ap words (str_append_assoc op space (str_append key (str_append space value)))
    ∙ words_first op (str_append key (str_append space value)) o
    ∙ ap (λ ws. op ∷ ws) (words_first key value k ∙ ap (λ ws. key ∷ ws) (words_last value v))

effect-command_of :
    (op : OperationType) (key value : String) (f : Content)
    → IsWord key
    → IsWord value
    → effect (words (command_of op key value)) f ≡ requested op key value f
unfolding effect command_of requested
effect-command_of OperationType.put key value f k v =
    rw (words_two "put" key value (refl, (refl, (refl, tt))) k v) refl
effect-command_of OperationType.update key value f k v =
    rw (words_two "update" key value (refl, (refl, (refl, (refl, (refl, (refl, tt)))))) k v) refl
effect-command_of OperationType.delete key value f k v =
    rw (words_one "delete" key (refl, (refl, (refl, (refl, (refl, (refl, tt)))))) k) refl
effect-command_of OperationType.get key value f k v = unfold words in refl

-- If neither the key nor the value is empty or has white space, the command that the leader
-- writes for an operation does to the map, when it is read back and applied, what the client asked
-- for, with its status.
pub apply_command-command_of :
    (rand : ℕ → ℕ) (op : OperationType) (key value : String) {kv : Store}
    {es : List (Entry String String)}
    → Shape (text_params rand) kv es
    → IsWord key
    → IsWord value
    → Steps rand
        (requested op key value (content rand es))
        (apply_command rand (command_of op key value) kv)
apply_command-command_of rand op key value {kv} {es} h k v =
    subst (λ step. Steps rand step (apply_command rand (command_of op key value) kv))
      (effect-command_of op key value (content rand es) k v)
      (apply_command-effect rand h (command_of op key value))

effect-split_key :
    (one two value : String) (f : Content)
    → IsWord one
    → IsWord two
    → effect (words (command_of OperationType.put (str_append one (str_append space two)) value)) f
      ≡ requested OperationType.put one two f
unfolding effect command_of requested
effect-split_key one two value f o t =
    rw (split_words "put" one two value (refl, (refl, (refl, tt))) o t) refl
  where
    split_words :
        (op a b v : String)
        → IsWord op
        → IsWord a
        → IsWord b
        → words (
            str_append
              (str_append op space)
              (str_append (str_append a (str_append space b)) (str_append space v)))
          ≡ op ∷ a ∷ b ∷ words v
    split_words op a b v x y z =
        ap words (str_append_assoc op space _)
        ∙ words_first op _ x
        ∙ ap (λ ws. op ∷ ws)
            (ap words (str_append_assoc a (str_append space b) (str_append space v))
              ∙ ap (λ u. words (str_append a u)) (str_append_assoc space b (str_append space v))
              ∙ words_first a _ y
              ∙ ap (λ ws. a ∷ ws) (words_first b v z))

-- A key of two words is torn apart: a client that puts a value under it gets the first word as the
-- key and the second as its value, and the value is dropped.
pub apply_command-split_key :
    (rand : ℕ → ℕ) (one two value : String) {kv : Store} {es : List (Entry String String)}
    → Shape (text_params rand) kv es
    → IsWord one
    → IsWord two
    → Steps rand (requested OperationType.put one two (content rand es)) (
        apply_command rand
          (command_of OperationType.put (str_append one (str_append space two)) value)
          kv)
apply_command-split_key rand one two value {kv} {es} h o t =
    subst
      (λ step. Steps rand step (
        apply_command rand
          (command_of OperationType.put (str_append one (str_append space two)) value) kv))
      (effect-split_key one two value (content rand es) o t)
      (apply_command-effect rand h
        (command_of OperationType.put (str_append one (str_append space two)) value))
