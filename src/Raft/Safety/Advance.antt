-- ===== src/Raft/Safety/Advance.antt =====
-- The relation of the state before a step to the state after it, and its rules.
use ww_raft_kv.Prelude.{
  Option, arith, inl, inr, none, refl, some, sym, true, ℕ, ◌+◌, ◌∙◌, ◌≡◌, ◌≢◌, ◌≤◌, ◌⊎◌,
}
use ww_raft_kv.Raft.Frame.{Keeps}
use ww_raft_kv.Raft.Persist.{persist, persist_data}
use ww_raft_kv.Raft.State.{Platform, Raft, RaftPersistData, leader}
use ww_raft_kv.Raft.Types.{NodeId, TermId, no_node}

-- The disk takes what is written to it.
abbrev pub Writes : Platform → Type 0
Writes p = (n : ℕ) → (p.serializes n ≡ true) × (p.opens n ≡ true)

-- What a node finds again after a crash: no file stands for a node that never changed.
abbrev pub saved_term : Option RaftPersistData → TermId
saved_term none = 0
saved_term (some d) = d.term

abbrev pub saved_vote : Option RaftPersistData → NodeId
saved_vote none = no_node
saved_vote (some d) = d.voted_for

pub record IsSaved (s : Raft) : Type 0 where
  pub term : saved_term s.disk ≡ s.term
  pub vote : saved_vote s.disk ≡ s.voted_for

pub record Advance (s t : Raft) : Type 0 where
  pub term : s.term ≤ t.term
  pub vote :
      t.term ≡ s.term → s.voted_for ≢ no_node → (t.voted_for ≡ s.voted_for) ⊎ (t.role ≡ leader)
  pub lead : t.term ≡ s.term → s.role ≡ leader → t.role ≡ leader
  pub platform : t.platform ≡ s.platform
  pub saved : Writes s.platform → IsSaved s → IsSaved t

pub persist-IsSaved : (s : Raft) → Writes s.platform → IsSaved (persist s)
unfolding persist persist_data
persist-IsSaved s w = ground (arith, w s.calls, w (s.calls + 1))

-- A step within a role, a term and a vote.
pub record Stays (s t : Raft) : Type 0 where
  pub role : t.role ≡ s.role
  pub term : t.term ≡ s.term
  pub voted_for : t.voted_for ≡ s.voted_for
  pub platform : t.platform ≡ s.platform
  pub saved : Writes s.platform → IsSaved s → IsSaved t

pub Stays-of_disk :
    {s : Raft} (t : Raft)
    → t.role ≡ s.role
    → t.term ≡ s.term
    → t.voted_for ≡ s.voted_for
    → t.platform ≡ s.platform
    → t.disk ≡ s.disk
    → Stays s t
Stays-of_disk t r e v p d = record {
  role = r;
  term = e;
  voted_for = v;
  platform = p;
  saved =
      λ w i. record { term = ground (arith, d, e, i.term); vote = ground (arith, d, v, i.vote) };
}

pub Stays-refl : (s : Raft) → Stays s s
Stays-refl s = Stays-of_disk s refl refl refl refl refl

pub Keeps-Stays : {s t : Raft} → Keeps s t → Stays s t
Keeps-Stays {t} k = Stays-of_disk t k.role k.term k.voted_for k.platform k.disk

-- A state is saved, and then fields that are not read here change.
pub Stays-of_persist :
    {s : Raft} (t u : Raft)
    → t.role ≡ s.role
    → t.term ≡ s.term
    → t.voted_for ≡ s.voted_for
    → t.platform ≡ s.platform
    → Stays (persist t) u
    → Stays s u
unfolding persist
Stays-of_persist t u r e v p k = record {
  role = k.role ∙ r;
  term = k.term ∙ e;
  voted_for = k.voted_for ∙ v;
  platform = k.platform ∙ p;
  saved = λ w i. k.saved (λ n. rw p (w n)) (persist-IsSaved t (λ n. rw p (w n)));
}

pub Stays-trans : {s t u : Raft} → Stays s t → Stays t u → Stays s u
Stays-trans h k = record {
  role = k.role ∙ h.role;
  term = k.term ∙ h.term;
  voted_for = k.voted_for ∙ h.voted_for;
  platform = k.platform ∙ h.platform;
  saved = λ w i. k.saved (λ n. rw h.platform (w n)) (h.saved w i);
}

pub Stays-Advance : {s t u : Raft} → Stays s t → Advance t u → Advance s u
Stays-Advance {s} {t} {u} h k = record {
  term = omega (arith, h.term, k.term);
  lead = λ e l. k.lead (e ∙ sym h.term) (h.role ∙ l);
  vote = λ e n. ground (arith, h.voted_for, k.vote (e ∙ sym h.term) (λ x. n (sym h.voted_for ∙ x)));
  platform = k.platform ∙ h.platform;
  saved = λ w i. k.saved (λ n. rw h.platform (w n)) (h.saved w i);
}

pub Advance-Stays : {s t u : Raft} → Advance s t → Stays t u → Advance s u
Advance-Stays {s} {t} {u} h k = record {
  term = omega (arith, h.term, k.term);
  lead = λ e l. k.role ∙ h.lead (sym k.term ∙ e) l;
  vote = λ e n. ground (arith, k.voted_for, k.role, h.vote (sym k.term ∙ e) n);
  platform = k.platform ∙ h.platform;
  saved = λ w i. k.saved (λ n. rw h.platform (w n)) (h.saved w i);
}

pub Stays→Advance : {s t : Raft} → Stays s t → Advance s t
Stays→Advance k = record {
  term = omega (arith, k.term);
  vote = λ e n. inl k.voted_for;
  lead = λ e l. k.role ∙ l;
  platform = k.platform;
  saved = k.saved;
}

pub Advance-refl : (s : Raft) → Advance s s
Advance-refl s = Stays→Advance (Stays-refl s)

pub Advance-trans : {s t u : Raft} → Advance s t → Advance t u → Advance s u
Advance-trans {s} {t} {u} h k = record {
  term = omega (arith, h.term, k.term);
  vote = λ e n.
      let same : t.term ≡ s.term = omega (arith, h.term, k.term, e) in
      elim (h.vote same n) [
        | inl v ↦ elim (k.vote (e ∙ sym same) (λ x. n (sym v ∙ x))) [
          | inl x ↦ inl (x ∙ v)
          | inr l ↦ inr l
        ]
        | inr l ↦ inr (k.lead (e ∙ sym same) l)
      ];
  lead = λ e l.
      let same : t.term ≡ s.term = omega (arith, h.term, k.term, e) in
      k.lead (e ∙ sym same) (h.lead same l);
  platform = k.platform ∙ h.platform;
  saved = λ w i. k.saved (λ n. rw h.platform (w n)) (h.saved w i);
}
