-- ===== src/Raft/Append/Sorting.antt =====
-- `std::sort` on indexes, and how many elements of a list are at least as large as one of them.
use ww_raft_kv.Prelude.{
  Bool-cases, List, [], arith, get_or, if◌then◌else◌, inl, inr, leb, length, refl, suc, zero, ℕ,
  ◌+◌, ◌/◌, ◌∷◌, ◌≡◌, ◌≤◌,
}
use ww_raft_kv.Raft.Append.{insert_sorted, sort}

unfoldable pub count_ge : ℕ → List ℕ → ℕ
count_ge v [] = 0
count_ge v (x ∷ xs) = (if leb v x then 1 else 0) + count_ge v xs

abbrev pub AllGe : ℕ → List ℕ → Type 0
AllGe v [] = Unit
AllGe v (x ∷ xs) = (v ≤ x) × AllGe v xs

abbrev pub IsSorted : List ℕ → Type 0
IsSorted [] = Unit
IsSorted (x ∷ xs) = AllGe x xs × IsSorted xs

AllGe-mono : {v w : ℕ} (xs : List ℕ) → v ≤ w → AllGe w xs → AllGe v xs
AllGe-mono [] h a = tt
AllGe-mono (x ∷ xs) h a = (omega (arith, h, a.0), AllGe-mono xs h a.1)

AllGe-insert : {v : ℕ} (a : ℕ) (xs : List ℕ) → v ≤ a → AllGe v xs → AllGe v (insert_sorted a xs)
unfolding insert_sorted
AllGe-insert a [] h k = (h, tt)
AllGe-insert a (x ∷ xs) h k = elim (Bool-cases (leb a x)) [
  | inl e ↦ rw e (h, k)
  | inr e ↦ rw e (k.0, AllGe-insert a xs h k.1)
]

insert-IsSorted : (a : ℕ) (xs : List ℕ) → IsSorted xs → IsSorted (insert_sorted a xs)
unfolding insert_sorted
insert-IsSorted a [] h = (tt, tt)
insert-IsSorted a (x ∷ xs) h = elim (Bool-cases (leb a x)) [
  | inl e ↦ rw e ((ground arith, AllGe-mono xs (ground arith) h.0), h)
  | inr e ↦ rw e (AllGe-insert a xs (ground arith) h.0, insert-IsSorted a xs h.1)
]

pub sort-IsSorted : (xs : List ℕ) → IsSorted (sort xs)
unfolding sort
sort-IsSorted [] = tt
sort-IsSorted (x ∷ xs) = insert-IsSorted x (sort xs) (sort-IsSorted xs)

count_ge-insert : (v a : ℕ) (xs : List ℕ) → count_ge v (insert_sorted a xs) ≡ count_ge v (a ∷ xs)
unfolding count_ge insert_sorted
count_ge-insert v a [] = refl
count_ge-insert v a (x ∷ xs) = ground (arith, count_ge-insert v a xs)

pub count_ge-sort : (v : ℕ) (xs : List ℕ) → count_ge v (sort xs) ≡ count_ge v xs
unfolding sort count_ge
count_ge-sort v [] = refl
count_ge-sort v (x ∷ xs) = omega (arith, count_ge-insert v x (sort xs), count_ge-sort v xs)

length-insert : (a : ℕ) (xs : List ℕ) → length (insert_sorted a xs) ≡ suc (length xs)
unfolding insert_sorted
length-insert a [] = refl
length-insert a (x ∷ xs) = ground (arith, length-insert a xs)

pub length-sort : (xs : List ℕ) → length (sort xs) ≡ length xs
unfolding sort
length-sort [] = refl
length-sort (x ∷ xs) = omega (arith, length-insert x (sort xs), length-sort xs)

count_ge_all : (v : ℕ) (xs : List ℕ) → AllGe v xs → count_ge v xs ≡ length xs
unfolding count_ge
count_ge_all v [] a = refl
count_ge_all v (x ∷ xs) a = ground (arith, count_ge_all v xs a.1)

-- At position k of a sorted list stands a value that all elements from there on reach.
pub count_ge-get_or :
    (xs : List ℕ) (k : ℕ) → IsSorted xs → length xs ≤ count_ge (get_or xs k 0) xs + k
unfolding count_ge
count_ge-get_or [] k s = omega arith
count_ge-get_or (x ∷ xs) zero s = ground (arith, count_ge_all x xs s.0)
count_ge-get_or (x ∷ xs) (suc k) s = omega (arith, count_ge-get_or xs k s.1)

-- The element in the middle of the sorted list.
pub count_ge-middle :
    (xs : List ℕ) → length xs ≤ count_ge (get_or (sort xs) (length xs / 2) 0) xs + length xs / 2
count_ge-middle xs =
    let v = get_or (sort xs) (length xs / 2) 0 in
    omega (
      arith,
      count_ge-get_or (sort xs) (length xs / 2) (sort-IsSorted xs),
      count_ge-sort v xs,
      length-sort xs,
    )
