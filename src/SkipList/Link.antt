-- ===== src/SkipList/Link.antt =====
-- A new node is put into one level, and then into all of its levels.
use ww_raft_kv.Prelude.{List, [], some, sym, ℕ, ◌++◌, ◌∙◌, ◌∷◌, ◌≡◌, ◌≢◌}
use ww_raft_kv.SkipList.Shape.{Apart, Distinct, Entry, Walk, last_of}
use ww_raft_kv.SkipList.Types.{Pointer, SkipList, read}

pub last_of-Apart :
    {K V : Type 0} (p : Pointer) (x : Entry K V) (xs ys : List (Entry K V))
    → Apart p (x ∷ xs ++ ys)
    → p ≢ last_of x.at xs
last_of-Apart p x [] ys a e = a.0 (sym e)
last_of-Apart p x (z ∷ xs) ys a e = last_of-Apart p z xs ys a.1 e

module _ {K V : Type 0} (s t : SkipList K V) where
  -- On a level on which all that a walk passes reads as before, the walk is as before.
  pub Walk-same :
      (l : ℕ) (p : Pointer) (es : List (Entry K V))
      → ((r : Pointer) → read t r l ≡ read s r l)
      → Walk s l p es
      → Walk t l p es
  Walk-same l p [] h w = h p ∙ w
  Walk-same l p (e ∷ es) h w = (h p ∙ w.0, Walk-same l e.at es h w.1)

  -- The pointers of a level change at one address only, that the walk does not pass.
  pub Walk-Apart :
      (l : ℕ) (a b p : Pointer) (es : List (Entry K V))
      → ((r : Pointer) → r ≢ a → r ≢ b → read t r l ≡ read s r l)
      → p ≢ a
      → p ≢ b
      → Apart a es
      → Apart b es
      → Walk s l p es
      → Walk t l p es
  Walk-Apart l a b p [] h n m x y w = h p n m ∙ w
  Walk-Apart l a b p (e ∷ es) h n m x y w =
      (h p n m ∙ w.0, Walk-Apart l a b e.at es h x.0 y.0 x.1 y.1 w.1)

  -- The pointer of the last node before the new one leads to it, and its own to what came after.
  pub Walk-linked :
      (l : ℕ) (p : Pointer) (new_entry : Entry K V) (xs ys : List (Entry K V))
      → ((r : Pointer) → r ≢ last_of p xs → r ≢ new_entry.at → read t r l ≡ read s r l)
      → read t (last_of p xs) l ≡ some (some new_entry.at)
      → read t new_entry.at l ≡ read s (last_of p xs) l
      → p ≢ new_entry.at
      → Apart p (xs ++ ys)
      → Apart new_entry.at (xs ++ ys)
      → Distinct (xs ++ ys)
      → Walk s l p (xs ++ ys)
      → Walk t l p (xs ++ new_entry ∷ ys)
  Walk-linked l p new_entry [] [] h here after n a b d w = (here, after ∙ w)
  Walk-linked l p new_entry [] (y ∷ ys) h here after n a b d w =
      (here, (after ∙ w.0, Walk-Apart l p new_entry.at y.at ys h a.0 b.0 a.1 b.1 w.1))
  Walk-linked l p new_entry (x ∷ xs) ys h here after n a b d w = (
    h p (last_of-Apart p x xs ys a) n ∙ w.0,
    Walk-linked l x.at new_entry xs ys h here after b.0 d.0 b.1 d.1 w.1,
  )
