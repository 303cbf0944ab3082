-- ===== src/SkipList/Apart.antt =====
-- Addresses of entries, on a level and in a whole list.
use ww_raft_kv.Prelude.{Bool-cases, List, [], arith, inl, inr, leb, sym, ℕ, ◌++◌, ◌∷◌, ◌≢◌}
use ww_raft_kv.SkipList.Shape.{AllMade, Apart, Distinct, Entry, last_of, tall}
use ww_raft_kv.SkipList.Types.{Pointer}

module _ {K V : Type 0} where
  pub Apart-tall : (a : Pointer) (l : ℕ) (es : List (Entry K V)) → Apart a es → Apart a (tall l es)
  unfolding tall
  Apart-tall a l [] h = tt
  Apart-tall a l (e ∷ es) h = elim (Bool-cases (leb l e.top)) [
    | inl k ↦ rw k (h.0, Apart-tall a l es h.1)
    | inr k ↦ rw k (Apart-tall a l es h.1)
  ]

  pub Distinct-tall : (l : ℕ) (es : List (Entry K V)) → Distinct es → Distinct (tall l es)
  unfolding tall
  Distinct-tall l [] h = tt
  Distinct-tall l (e ∷ es) h = elim (Bool-cases (leb l e.top)) [
    | inl k ↦ rw k (Apart-tall e.at l es h.0, Distinct-tall l es h.1)
    | inr k ↦ rw k (Distinct-tall l es h.1)
  ]

  pub Apart-left : (a : Pointer) (xs ys : List (Entry K V)) → Apart a (xs ++ ys) → Apart a xs
  Apart-left a [] ys h = tt
  Apart-left a (x ∷ xs) ys h = (h.0, Apart-left a xs ys h.1)

  pub Apart-right : (a : Pointer) (xs ys : List (Entry K V)) → Apart a (xs ++ ys) → Apart a ys
  Apart-right a [] ys h = h
  Apart-right a (x ∷ xs) ys h = Apart-right a xs ys h.1

  pub last_of-ne : (a p : Pointer) (xs : List (Entry K V)) → p ≢ a → Apart a xs → last_of p xs ≢ a
  last_of-ne a p [] n h = n
  last_of-ne a p (x ∷ xs) n h = last_of-ne a x.at xs h.0 h.1

  -- All that was made has a smaller address than the next node.
  pub AllMade-Apart : (a : Pointer) (es : List (Entry K V)) → AllMade a es → Apart a es
  AllMade-Apart a [] h = tt
  AllMade-Apart a (e ∷ es) h = ((λ k. omega (arith, h.0, k)), AllMade-Apart a es h.1)

  pub Apart-insert :
      (a : Pointer) (e : Entry K V) (xs ys : List (Entry K V))
      → e.at ≢ a
      → Apart a (xs ++ ys)
      → Apart a (xs ++ e ∷ ys)
  Apart-insert a e [] ys n h = (n, h)
  Apart-insert a e (x ∷ xs) ys n h = (h.0, Apart-insert a e xs ys n h.1)

  pub Distinct-insert :
      (e : Entry K V) (xs ys : List (Entry K V))
      → Apart e.at (xs ++ ys)
      → Distinct (xs ++ ys)
      → Distinct (xs ++ e ∷ ys)
  Distinct-insert e [] ys a h = (a, h)
  Distinct-insert e (x ∷ xs) ys a h =
      (Apart-insert x.at e xs ys (λ k. a.0 (sym k)) h.0, Distinct-insert e xs ys a.1 h.1)
