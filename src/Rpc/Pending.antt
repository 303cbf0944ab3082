-- ===== src/Rpc/Pending.antt =====
-- raftkv/raft-rpc/src/RaftRpcChannel.cpp: the table of the calls that wait, counted.
use ww_raft_kv.Prelude.{
  ==_iff, Bool-cases, List, [], ap, arith, eq→==, inl, inr, ne→==, none, none-some, refl, some, sym,
  true-false, ℕ, ◌+◌, ◌<◌, ◌==◌, ◌∙◌, ◌∷◌, ◌≡◌, ◌≤◌,
}
use ww_raft_kv.Table

module _ {κ} {V : Type κ} where
  -- No key twice.
  unfoldable pub Distinct : List (ℕ × V) → Type κ
  Distinct [] = Unit
  Distinct ((k, v) ∷ rest) = (Table.lookup ◌==◌ k rest ≡ none) × Distinct rest

  -- Each key is below a bound.
  unfoldable pub Below : ℕ → List (ℕ × V) → Type 0
  Below n [] = Unit
  Below n ((k, v) ∷ rest) = (k < n) × Below n rest

  -- How much the values of a table weigh.
  unfoldable pub total : (V → ℕ) → List (ℕ × V) → ℕ
  total w [] = 0
  total w ((k, v) ∷ rest) = w v + total w rest

  pub Below-mono : (n m : ℕ) (t : List (ℕ × V)) → n ≤ m → Below n t → Below m t
  unfolding Below
  Below-mono n m [] h b = b
  Below-mono n m ((k, v) ∷ rest) h (less, b) = (omega arith, Below-mono n m rest h b)

  pub lookup-Below : (n : ℕ) (t : List (ℕ × V)) → Below n t → Table.lookup ◌==◌ n t ≡ none
  unfolding Below Table.lookup
  lookup-Below n [] b = refl
  lookup-Below n ((k, v) ∷ rest) (less, b) =
      rw (ne→== k n (λ e. omega arith)) (lookup-Below n rest b)

  pub assign-Below :
      (n k : ℕ) (v : V) (t : List (ℕ × V)) → k < n → Below n t → Below n (Table.assign ◌==◌ k v t)
  unfolding Below Table.assign
  assign-Below n k v [] h b = (h, b)
  assign-Below n k v ((j, u) ∷ rest) h (less, b) = elim (Bool-cases (j == k)) [
    | inl e ↦ rw e (h, b)
    | inr e ↦ rw e (less, assign-Below n k v rest h b)
  ]

  pub erase-Below : (n k : ℕ) (t : List (ℕ × V)) → Below n t → Below n (Table.erase ◌==◌ k t)
  unfolding Below Table.erase
  erase-Below n k [] b = b
  erase-Below n k ((j, u) ∷ rest) (less, b) = elim (Bool-cases (j == k)) [
    | inl e ↦ rw e (erase-Below n k rest b)
    | inr e ↦ rw e (less, erase-Below n k rest b)
  ]

  pub assign-Distinct :
      (k : ℕ) (v : V) (t : List (ℕ × V))
      → Distinct t
      → Table.lookup ◌==◌ k t ≡ none
      → Distinct (Table.assign ◌==◌ k v t)
  unfolding Distinct Table.assign Table.lookup
  assign-Distinct k v [] d h = (refl, d)
  assign-Distinct k v ((j, u) ∷ rest) (new, d) h = elim (Bool-cases (j == k)) [
    | inl e ↦ absurd (none-some (sym (rw e at h)))
    | inr e ↦ rw e (
      Table.lookup-assign ◌==◌ ==_iff k j v rest
          ∙ rw (ne→== k j (λ f. true-false (sym (eq→== j k (sym f)) ∙ e))) new,
      assign-Distinct k v rest d (rw e at h),
    )
  ]

  pub erase-Distinct : (k : ℕ) (t : List (ℕ × V)) → Distinct t → Distinct (Table.erase ◌==◌ k t)
  unfolding Distinct Table.erase
  erase-Distinct k [] d = d
  erase-Distinct k ((j, u) ∷ rest) (new, d) = elim (Bool-cases (j == k)) [
    | inl e ↦ rw e (erase-Distinct k rest d)
    | inr e ↦ rw e (
      Table.lookup-erase ◌==◌ ==_iff k j rest
          ∙ rw (ne→== k j (λ f. true-false (sym (eq→== j k (sym f)) ∙ e))) new,
      erase-Distinct k rest d,
    )
  ]

  pub total-assign :
      (w : V → ℕ) (k : ℕ) (v : V) (t : List (ℕ × V))
      → Table.lookup ◌==◌ k t ≡ none
      → total w (Table.assign ◌==◌ k v t) ≡ total w t + w v
  unfolding total Table.assign Table.lookup
  total-assign w k v [] h = omega arith
  total-assign w k v ((j, u) ∷ rest) h = elim (Bool-cases (j == k)) [
    | inl e ↦ absurd (none-some (sym (rw e at h)))
    | inr e ↦ rw e (omega (arith, total-assign w k v rest (rw e at h)))
  ]

  pub erase_absent :
      (k : ℕ) (t : List (ℕ × V)) → Table.lookup ◌==◌ k t ≡ none → Table.erase ◌==◌ k t ≡ t
  unfolding Table.erase Table.lookup
  erase_absent k [] h = refl
  erase_absent k ((j, u) ∷ rest) h = elim (Bool-cases (j == k)) [
    | inl e ↦ absurd (none-some (sym (rw e at h)))
    | inr e ↦ rw e (ap (λ l. (j, u) ∷ l) (erase_absent k rest (rw e at h)))
  ]

  pub total-erase :
      (w : V → ℕ) (k : ℕ) (v : V) (t : List (ℕ × V))
      → Distinct t
      → Table.lookup ◌==◌ k t ≡ some v
      → total w t ≡ total w (Table.erase ◌==◌ k t) + w v
  unfolding total Table.erase Table.lookup Distinct
  total-erase w k v [] d h = absurd (none-some h)
  total-erase w k v ((j, u) ∷ rest) (new, d) h = elim (Bool-cases (j == k)) [
    | inl e ↦ rw e (
        rw (erase_absent k rest (ap (λ x. Table.lookup ◌==◌ x rest) (sym ((==_iff j k).0 e)) ∙ new))
          (omega (arith, ap {B = ℕ} (λ o. elim o [ none ↦ 0 | some x ↦ w x ]) (rw e at h))))
    | inr e ↦ rw e (omega (arith, total-erase w k v rest d (rw e at h)))
  ]
