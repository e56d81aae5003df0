-- ===== src/Nghttpx/Pems.antt =====
-- `RemoveDuplicatePems` of pkg/nghttpx/tls.go.
pub mod Laws
use nghttpx_ingress_lb.Common.{
  ℕ, ◌+◌, Bool, List, [], ◌∷◌, length, leb, if◌then◌else◌, Result, ok, ◌>>=◌,
}
use nghttpx_ingress_lb.Common.Text.{◌=s◌}
use nghttpx_ingress_lb.Common.Arrays.{for_range, index, store, front}
use nghttpx_ingress_lb.Nghttpx.Types.{TlsCred}

abbrev pub same_key_path : TlsCred → TlsCred → Bool
same_key_path a b = a.key.path =s b.key.path

-- One round of the loop of `RemoveDuplicatePems`. `left` is `pems[1:]`, over the same array, so that
-- `left[i]` is `pems[i + 1]`.
pems_round : ℕ → List TlsCred × ℕ → Result (List TlsCred × ℕ)
pems_round i (pems, j) = index pems j >>= λ kept. index pems (i + 1) >>= λ next.
    if same_key_path kept next
    then ok (pems, j)
    else (if leb (j + 1) i then store pems (j + 1) next else ok pems) >>= λ pems'. ok (pems', j + 1)

unfoldable pub remove_duplicate_pems : List TlsCred → Result (List TlsCred)
unfolding pems_round
remove_duplicate_pems [] = ok []
remove_duplicate_pems (x ∷ left) = front (for_range (length left) 0 pems_round (x ∷ left, 0))
