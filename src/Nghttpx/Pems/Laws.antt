-- ===== src/Nghttpx/Pems/Laws.antt =====
-- The in-place loop of `RemoveDuplicatePems` against the plain recursion.
use Prim.Native.Nat.{pred}
use native.Mathlib.Numerals.{add-one}
use nghttpx_ingress_lb.Common.{
  ℕ, suc, ◌≡◌, refl, fun_ext, List, [], ◌∷◌, arith, length, leb, ok, Bool,
}
use nghttpx_ingress_lb.Common.Arrays.{compact_round, compact-dedup, for_range-shift}
use nghttpx_ingress_lb.Common.Sorting.Adjacent.{dedup}
use nghttpx_ingress_lb.Nghttpx.Types.{TlsCred}
use nghttpx_ingress_lb.Nghttpx.Pems.{pems_round, same_key_path, remove_duplicate_pems}

-- Whether the loop writes at `q`, for the index `i` into the whole array.
abbrev moves : ℕ → ℕ → Bool
moves q i = leb q (pred i)

pems_round-compact_round :
    (i : ℕ) (s : List TlsCred × ℕ) → pems_round i s ≡ compact_round same_key_path moves (suc i) s
unfolding pems_round
pems_round-compact_round i (pems, j) = simp add-one

-- On every list of credentials the loop of `RemoveDuplicatePems` stays within the array and returns the
-- list without those that have the key path of the last one kept.
pub remove_duplicate_pems-dedup :
    (pems : List TlsCred) → remove_duplicate_pems pems ≡ ok (dedup same_key_path pems)
unfolding remove_duplicate_pems dedup
remove_duplicate_pems-dedup [] = refl
remove_duplicate_pems-dedup (x ∷ left) =
    rw
      (
        fun_ext (λ i. fun_ext (pems_round-compact_round i)),
        for_range-shift (length left) 0 (compact_round same_key_path moves),
      )
      (compact-dedup same_key_path moves (λ q. ground arith) (λ q i h. ground arith) x left)
