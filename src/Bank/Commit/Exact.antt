-- ===== src/Bank/Commit/Exact.antt =====
-- The balance that `CheckCommit` and `DoCommit` compute on Go's `int`, and the exact sum.
use cs.Prelude.{◌≡◌, refl, sym, ◌∙◌, ap, List, [], ◌∷◌, Bool-cases, inl, inr, arith, if◌then◌else◌}
use cs.Prelude.Int.{ℤ, pos, negsuc, ◌+ℤ◌, leb_ℤ, wrap64, add64, IsInt64, wrap64_in_range}
use cs.Bank.State.{WriteVale}
use cs.Bank.Commit.{balance_at}

-- The committed value and the tentative writes up to the transaction, as integers without bounds.
unfoldable pub exact_at : ℤ → ℤ → List WriteVale → ℤ
exact_at ts ds [] = ds
exact_at ts ds (w ∷ ws) = exact_at ts (if leb_ℤ w.timestamp ts then ds +ℤ w.value else ds) ws

wrap64-add : (a b : ℤ) → wrap64 (wrap64 a +ℤ b) ≡ wrap64 (a +ℤ b)
unfolding wrap64 ◌+ℤ◌
wrap64-add (pos a) (pos b) = ground arith
wrap64-add (pos a) (negsuc b) = ground arith
wrap64-add (negsuc a) (pos b) = ground arith
wrap64-add (negsuc a) (negsuc b) = ground arith

add64-wrap64 : (a b : ℤ) → add64 (wrap64 a) b ≡ wrap64 (a +ℤ b)
unfolding add64
add64-wrap64 a b = wrap64-add a b

balance_at-wrap64 :
    (ts ds : ℤ) (ws : List WriteVale) → balance_at ts (wrap64 ds) ws ≡ wrap64 (exact_at ts ds ws)
unfolding balance_at exact_at
balance_at-wrap64 ts ds [] = refl
balance_at-wrap64 ts ds (w ∷ ws) = elim (Bool-cases (leb_ℤ w.timestamp ts)) [
  | inl early ↦ rw early (
      ap (λ d. balance_at ts d ws) (add64-wrap64 ds w.value)
      ∙ balance_at-wrap64 ts (ds +ℤ w.value) ws)
  | inr late ↦ rw late (balance_at-wrap64 ts ds ws)
]

-- Where the committed value and the exact sum of it and the tentative writes up to the transaction
-- fit into 64 bits, the balance at the transaction is that sum, also if a sum on the way does not fit.
pub balance_at-exact :
    (ts ds : ℤ) (ws : List WriteVale)
    → IsInt64 ds
    → IsInt64 (exact_at ts ds ws)
    → balance_at ts ds ws ≡ exact_at ts ds ws
balance_at-exact ts ds ws h fits =
    ap (λ d. balance_at ts d ws) (sym (wrap64_in_range ds h))
    ∙ balance_at-wrap64 ts ds ws
    ∙ wrap64_in_range (exact_at ts ds ws) fits
