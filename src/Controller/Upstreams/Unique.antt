-- ===== src/Controller/Upstreams/Unique.antt =====
-- The backends of one upstream: sorted by address and port, each pair once.
pub mod Laws
use nghttpx_ingress_lb.Common.{
  ◌-◌, Bool, List, [], ◌∷◌, ◌++◌, ◌&&◌, length, Result, ok, panic, ◌>>=◌, if◌then◌else◌,
}
use nghttpx_ingress_lb.Common.Text.{◌=s◌}
use nghttpx_ingress_lb.Common.Arrays.{index}
use nghttpx_ingress_lb.Common.Sorting.{Sorter}
use nghttpx_ingress_lb.Common.Sorting.Keys.{less_by_both}
use nghttpx_ingress_lb.Nghttpx.Types.{UpstreamServer}

abbrev pub same_endpoint : UpstreamServer → UpstreamServer → Bool
same_endpoint a b = a.address =s b.address && a.port =s b.port

abbrev pub less_endpoint : UpstreamServer → UpstreamServer → Bool
less_endpoint = less_by_both (λ s. s.address) (λ s. s.port)

-- The loop over `backends[1:]`, with `uniqBackends` as accumulator.
uniq_loop : List UpstreamServer → List UpstreamServer → Result (List UpstreamServer)
uniq_loop uniq [] = ok uniq
uniq_loop uniq (sv ∷ rest) = index uniq (length uniq - 1) >>= λ last_backend.
    uniq_loop (if same_endpoint last_backend sv then uniq else uniq ++ sv ∷ []) rest

-- `backends[0]` panics on an empty list.
uniq_sorted : List UpstreamServer → Result (List UpstreamServer)
unfolding uniq_loop
uniq_sorted [] = panic
uniq_sorted (sv ∷ rest) = uniq_loop (sv ∷ []) rest

unfoldable pub unique_backends : Sorter → List UpstreamServer → Result (List UpstreamServer)
unfolding uniq_sorted
unique_backends sorter backends = uniq_sorted (sorter.sort_slice less_endpoint backends)
