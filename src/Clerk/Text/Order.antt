-- ===== src/Clerk/Text/Order.antt =====
-- The order of texts, as `operator<` of `std::string` gives it.
use ww_raft_kv.Clerk.Text.{text_params}
use ww_raft_kv.Prelude.{String, ap, arith, false, sym, true, true-false, ℕ, ◌∙◌, ◌≡◌}
use ww_raft_kv.SkipList.Shape.{IsOrder}
use Prim.Native.Char.{code}
use Prim.Native.Nat.{Ordering, compare as compare_ℕ}
use Prim.Native.String.compare as text_compare
use Prim.Native.String.{compare, then as and_then}
use text.Mathlib.Text.{is_lt}
use text.Mathlib.TextEquality.{eq_iff, path_by_compare}
use text.Mathlib.TextPositions.{compare_refl}

less-and_then :
    (a b c : ℕ) (x y z : Ordering)
    → (is_lt x ≡ true → is_lt y ≡ true → is_lt z ≡ true)
    → is_lt (and_then (compare_ℕ a b) x) ≡ true
    → is_lt (and_then (compare_ℕ b c) y) ≡ true
    → is_lt (and_then (compare_ℕ a c) z) ≡ true
less-and_then a b c x y z h p q = ground (arith, h)

less_trans :
    (s t u : String)
    → is_lt (compare s t) ≡ true
    → is_lt (compare t u) ≡ true
    → is_lt (compare s u) ≡ true
less_trans String.[] String.[] String.[] p q = p
less_trans String.[] (String.◌∷◌ d t) String.[] p q =
    absurd (true-false (sym q ∙ ap is_lt (text_compare.cons-nil d t)))
less_trans String.[] t (String.◌∷◌ e u) p q = ap is_lt (text_compare.nil-cons e u)
less_trans (String.◌∷◌ c s) String.[] u p q =
    absurd (true-false (sym p ∙ ap is_lt (text_compare.cons-nil c s)))
less_trans (String.◌∷◌ c s) (String.◌∷◌ d t) String.[] p q =
    absurd (true-false (sym q ∙ ap is_lt (text_compare.cons-nil d t)))
less_trans (String.◌∷◌ c s) (String.◌∷◌ d t) (String.◌∷◌ e u) p q =
    ap is_lt (text_compare.cons-cons c e s u)
    ∙ less-and_then (code c) (code d) (code e) (compare s t) (compare t u) (compare s u)
        (less_trans s t u) (sym (ap is_lt (text_compare.cons-cons c d s t)) ∙ p)
        (sym (ap is_lt (text_compare.cons-cons d e t u)) ∙ q)

equal-and_then :
    (a b : ℕ) (x y : Ordering)
    → (is_lt x ≡ false → is_lt y ≡ false → x ≡ Ordering.eq)
    → is_lt (and_then (compare_ℕ a b) x) ≡ false
    → is_lt (and_then (compare_ℕ b a) y) ≡ false
    → and_then (compare_ℕ a b) x ≡ Ordering.eq
equal-and_then a b x y h p q = ground (arith, h)

less_total :
    (s t : String)
    → is_lt (compare s t) ≡ false
    → is_lt (compare t s) ≡ false
    → compare s t ≡ Ordering.eq
less_total String.[] String.[] p q = text_compare.nil-nil
less_total String.[] (String.◌∷◌ d t) p q =
    absurd (true-false (sym (ap is_lt (text_compare.nil-cons d t)) ∙ p))
less_total (String.◌∷◌ c s) String.[] p q =
    absurd (true-false (sym (ap is_lt (text_compare.nil-cons c s)) ∙ q))
less_total (String.◌∷◌ c s) (String.◌∷◌ d t) p q =
    text_compare.cons-cons c d s t
    ∙ equal-and_then (code c) (code d) (compare s t) (compare t s) (less_total s t)
        (sym (ap is_lt (text_compare.cons-cons c d s t)) ∙ p)
        (sym (ap is_lt (text_compare.cons-cons d c t s)) ∙ q)

-- The operators of `std::string` are those of an order.
pub text_params-IsOrder : (rand : ℕ → ℕ) → IsOrder (text_params rand)
unfolding text_params
text_params-IsOrder rand = record {
  equal_iff = eq_iff;
  irreflexive = λ a. ap is_lt (compare_refl a);
  transitive = less_trans;
  total = λ a b h k. path_by_compare a b (less_total a b h k);
}
