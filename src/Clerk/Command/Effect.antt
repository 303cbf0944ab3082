-- ===== src/Clerk/Command/Effect.antt =====
-- raftkv/raft-app/src/RaftClerk.cpp, `_ApplyCommitLogs`: what a command does to the map, read off
-- the list of its words.
use text.Mathlib.Text.{◌==◌ as str_eq}
use text.Mathlib.TextEquality.{eq_iff}
use ww_raft_kv.Clerk.Command.{
  StatusCode, Store, apply_command, apply_delete, apply_put, apply_update, created, default,
  status_of,
}
use ww_raft_kv.Clerk.Command.Arguments.{words, words_none, words_some}
use ww_raft_kv.Clerk.Text.{extract, text_params}
use ww_raft_kv.Clerk.Text.Order.{text_params-IsOrder}
use ww_raft_kv.KvStore.Map.{is_none, put_lem}
use ww_raft_kv.KvStore.Removal.{remove_lem}
use ww_raft_kv.KvStore.Update.{update_lem}
use ww_raft_kv.Prelude.{
  Bool-cases, List, Option, String, [], ap, false, if◌then◌else◌, inl, inr, none, not, refl, some,
  subst, sym, true, ℕ, ◌&&◌, ◌∙◌, ◌∷◌, ◌≡◌,
}
use ww_raft_kv.Raft.State.{step}
use ww_raft_kv.SkipList.Insertion.{content as content_of}
use ww_raft_kv.SkipList.Shape.{Entry, Shape}
use ww_raft_kv.SkipList.Types.{◌>>=◌}
use ww_raft_kv.KvStore

-- The map from keys to values that a store stands for.
abbrev pub Content : Type 0
Content = String → Option String

abbrev pub content : (ℕ → ℕ) → List (Entry String String) → Content
content rand = content_of (text_params rand)

abbrev put_words : List String → Content → StatusCode × Content
put_words (key ∷ value ∷ more) f =
    (status_of (is_none (f key)), λ k. if is_none (f key) && str_eq key k then some value else f k)
put_words _ f = (default, f)

abbrev update_words : List String → Content → StatusCode × Content
update_words (key ∷ value ∷ more) f = (created, λ k. if str_eq key k then some value else f k)
update_words _ f = (default, f)

abbrev delete_words : List String → Content → StatusCode × Content
delete_words (key ∷ more) f =
    (status_of (not (is_none (f key))), λ k. if str_eq key k then none else f k)
delete_words _ f = (default, f)

-- The words of a command as a step of the map: the status for the client, and the map afterwards.
unfoldable pub effect : List String → Content → StatusCode × Content
unfolding status_of
effect [] f = (default, f)
effect (op ∷ args) f =
    if str_eq op "put"
    then put_words args f
    else if str_eq op "update"
    then update_words args f
    else if str_eq op "delete"
    then delete_words args f
    else (default, f)

-- A store, as a step leaves it: it stands for a map, and the status is that of the map's step.
abbrev pub Steps : (ℕ → ℕ) → StatusCode × Content → Option (StatusCode × Store) → Type 0
Steps rand step r =
    (t : Store) × (fs : List (Entry String String)) × (r ≡ some (step.0, t))
    × Shape (text_params rand) t fs
    × ((k : String) → content rand fs k ≡ step.1 k)

one_word :
    (args : String)
    → str_eq (extract args).0 "" ≡ false
    → str_eq (extract (extract args).1).0 "" ≡ true
    → words args ≡ (extract args).0 ∷ []
one_word args e f = words_some args e ∙ ap (λ ws. (extract args).0 ∷ ws) (words_none _ f)

two_words :
    (args : String)
    → str_eq (extract args).0 "" ≡ false
    → str_eq (extract (extract args).1).0 "" ≡ false
    → words args
      ≡ (extract args).0 ∷ (extract (extract args).1).0 ∷ words (extract (extract args).1).1
two_words args e f = words_some args e ∙ ap (λ ws. (extract args).0 ∷ ws) (words_some _ f)

module _ (rand : ℕ → ℕ) {kv : Store} {es : List (Entry String String)}
    (h : Shape (text_params rand) kv es) where
  stays : Steps rand (default, content rand es) (some (default, kv))
  stays = (kv, es, refl, h, λ k. refl)

  put-Steps :
      (key value : String) (more : List String)
      → Steps rand
          (put_words (key ∷ value ∷ more) (content rand es))
          (do r ← KvStore.put (text_params rand) key value kv; some (status_of r.0, r.1))
  unfolding text_params
  put-Steps key value more =
      let (t, fs, e, shape, values) =
        put_lem (text_params rand) (text_params-IsOrder rand) h key value in
      (t, fs, rw e refl, shape, values)

  update-Steps :
      (key value : String) (more : List String)
      → Steps rand
          (update_words (key ∷ value ∷ more) (content rand es))
          (do r ← KvStore.update (text_params rand) key value kv; some (status_of r.0, r.1))
  unfolding status_of text_params
  update-Steps key value more =
      let (t, fs, e, shape, values) =
        update_lem (text_params rand) (text_params-IsOrder rand) h key value in
      (t, fs, rw e refl, shape, values)

  delete-Steps :
      (key : String) (more : List String)
      → Steps rand
          (delete_words (key ∷ more) (content rand es))
          (do r ← KvStore.remove (text_params rand) key kv; some (status_of r.0, r.1))
  unfolding text_params
  delete-Steps key more =
      let (t, fs, e, shape, values) =
        remove_lem (text_params rand) (text_params-IsOrder rand) h key in
      (t, fs, rw e refl, shape, values)

  -- The step of a command, from the words of its arguments.
  abbrev Reads :
      (List String → Content → StatusCode × Content)
      → List String
      → Option (StatusCode × Store)
      → Type 0
  Reads step ws r = Steps rand (step ws (content rand es)) r

  by_words :
      (step : List String → Content → StatusCode × Content) (r : Option (StatusCode × Store))
      {ws vs : List String}
      → ws ≡ vs
      → Reads step vs r
      → Reads step ws r
  by_words step r e = subst (λ w. Reads step w r) (sym e)

  apply_put-Steps : (args : String) → Reads put_words (words args) (apply_put rand args kv)
  unfolding apply_put
  apply_put-Steps args = elim (Bool-cases (str_eq (extract args).0 "")) [
    | inl e ↦ rw e (by_words put_words _ (words_none args e) stays)
    | inr e ↦ elim (Bool-cases (str_eq (extract (extract args).1).0 "")) [
      | inl f ↦ rw (e, f) (by_words put_words _ (one_word args e f) stays)
      | inr f ↦
          rw (e, f)
            (by_words put_words _ (two_words args e f)
              (put-Steps _ _ (words (extract (extract args).1).1)))
    ]
  ]

  apply_update-Steps : (args : String) → Reads update_words (words args) (apply_update rand args kv)
  unfolding apply_update
  apply_update-Steps args = elim (Bool-cases (str_eq (extract args).0 "")) [
    | inl e ↦ rw e (by_words update_words _ (words_none args e) stays)
    | inr e ↦ elim (Bool-cases (str_eq (extract (extract args).1).0 "")) [
      | inl f ↦ rw (e, f) (by_words update_words _ (one_word args e f) stays)
      | inr f ↦
          rw (e, f)
            (by_words update_words _ (two_words args e f)
              (update-Steps _ _ (words (extract (extract args).1).1)))
    ]
  ]

  apply_delete-Steps : (args : String) → Reads delete_words (words args) (apply_delete rand args kv)
  unfolding apply_delete
  apply_delete-Steps args = elim (Bool-cases (str_eq (extract args).0 "")) [
    | inl e ↦ rw e (by_words delete_words _ (words_none args e) stays)
    | inr e ↦
        rw e (by_words delete_words _ (words_some args e) (delete-Steps _ (words (extract args).1)))
  ]

  by_operation :
      (command : String)
      → Reads effect
          ((extract command).0 ∷ words (extract command).1)
          (apply_command rand command kv)
  unfolding apply_command effect
  by_operation command = elim (Bool-cases (str_eq (extract command).0 "put")) [
    | inl p ↦ rw p (apply_put-Steps (extract command).1)
    | inr p ↦ elim (Bool-cases (str_eq (extract command).0 "update")) [
      | inl q ↦ rw (p, q) (apply_update-Steps (extract command).1)
      | inr q ↦ elim (Bool-cases (str_eq (extract command).0 "delete")) [
        | inl r ↦ rw (p, q, r) (apply_delete-Steps (extract command).1)
        | inr r ↦ rw (p, q, r) stays
      ]
    ]
  ]

  -- On a store of the right shape, a command that is applied does to the map what its words say,
  -- the status for the client included, and the shape is kept. An unknown operation, and one
  -- without its arguments, change nothing.
  pub apply_command-effect :
      (command : String)
      → Steps rand (effect (words command) (content rand es)) (apply_command rand command kv)
  unfolding apply_command effect
  apply_command-effect command = elim (Bool-cases (str_eq (extract command).0 "")) [
    | inl e ↦
        let no_operation = (eq_iff (extract command).0 "").0 e in
        rw no_operation (
          subst (λ w. Steps rand (effect w (content rand es)) (some (default, kv)))
            (sym (words_none command e)) (unfold effect in stays))
    | inr e ↦
        subst (λ w. Steps rand (effect w (content rand es)) (apply_command rand command kv))
          (sym (words_some command e)) (by_operation command)
  ]
