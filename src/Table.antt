-- ===== src/Table.antt =====
-- `std::map` and `std::unordered_map` with the operations that raftkv/raft-app and
-- raftkv/raft-rpc use, as lists of keys with their values.
use ww_raft_kv.Prelude.{
  Bool, Bool-cases, List, Option, [], ap, arith, false, if◌then◌else◌, inl, inr, none, refl, some,
  sym, true, true-false, ◌↔◌, ◌∙◌, ◌∷◌, ◌≡◌,
}

module _ {ℓ} {K : Type ℓ} (equal : K → K → Bool)
    (equal_iff : (a b : K) → (equal a b ≡ true) ↔ (a ≡ b)) (j key k : K) where
  equal_left : equal j key ≡ true → equal j k ≡ equal key k
  equal_left e = ap (λ x. equal x k) ((equal_iff j key).0 e)

  equal_right : equal j key ≡ false → equal j k ≡ true → equal key k ≡ false
  equal_right e f = elim (Bool-cases (equal key k)) [
    | inl g ↦ absurd (true-false (sym f ∙ ap (λ x. equal j x) (sym ((equal_iff key k).0 g)) ∙ e))
    | inr g ↦ g
  ]

module _ {ℓ κ} {K : Type ℓ} {V : Type κ} (equal : K → K → Bool) where
  -- `find`: the value of a key.
  unfoldable pub lookup : K → List (K × V) → Option V
  lookup key [] = none
  lookup key ((k, v) ∷ rest) = if equal k key then some v else lookup key rest

  -- `operator[]` on the left of an assignment.
  unfoldable pub assign : K → V → List (K × V) → List (K × V)
  assign key value [] = (key, value) ∷ []
  assign key value ((k, v) ∷ rest) =
      if equal k key then (key, value) ∷ rest else (k, v) ∷ assign key value rest

  -- `erase` of a key.
  unfoldable pub erase : K → List (K × V) → List (K × V)
  erase key [] = []
  erase key ((k, v) ∷ rest) =
      let left = erase key rest in if equal k key then left else (k, v) ∷ left

  module _ (equal_iff : (a b : K) → (equal a b ≡ true) ↔ (a ≡ b)) where
    pub lookup-assign :
        (key k : K) (value : V) (m : List (K × V))
        → lookup k (assign key value m) ≡ (if equal key k then some value else lookup k m)
    unfolding lookup assign
    lookup-assign key k value [] = refl
    lookup-assign key k value ((j, v) ∷ rest) = elim (Bool-cases (equal j key)) [
      | inl e ↦ elim (Bool-cases (equal key k)) [
        | inl f ↦ rw (e, f) refl
        | inr f ↦ rw (e, f) (rw (equal_left equal equal_iff j key k e ∙ f) refl)
      ]
      | inr e ↦ elim (Bool-cases (equal j k)) [
        | inl f ↦ rw (e, f) (rw (equal_right equal equal_iff j key k e f) refl)
        | inr f ↦ rw (e, f) (lookup-assign key k value rest)
      ]
    ]

    pub lookup-erase :
        (key k : K) (m : List (K × V))
        → lookup k (erase key m) ≡ (if equal key k then none else lookup k m)
    unfolding lookup erase
    lookup-erase key k [] = ground arith
    lookup-erase key k ((j, v) ∷ rest) = elim (Bool-cases (equal j key)) [
      | inl e ↦ elim (Bool-cases (equal key k)) [
        | inl f ↦ rw (e, f) (rw f at (lookup-erase key k rest))
        | inr f ↦
            rw (e, f)
              (rw (equal_left equal equal_iff j key k e ∙ f) (rw f at (lookup-erase key k rest)))
      ]
      | inr e ↦ elim (Bool-cases (equal j k)) [
        | inl f ↦ rw (e, f) (rw (equal_right equal equal_iff j key k e f) refl)
        | inr f ↦ rw (e, f) (lookup-erase key k rest)
      ]
    ]
