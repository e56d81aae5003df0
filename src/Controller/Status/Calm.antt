-- ===== src/Controller/Status/Calm.antt =====
-- That the removal of the controller's address does not panic.
use nghttpx_ingress_lb.Common.{
  String, Bool, ◌≡◌, ◌≢◌, length, ◌==◌, err, panic, inl, inr, refl, List, [], ◌∷◌, Result, ok, Try,
  failed, got, Bool-cases,
}
use nghttpx_ingress_lb.Api.{Pod, Ingress}
use nghttpx_ingress_lb.Controller.Env.{LoadBalancerController, Caches}
use nghttpx_ingress_lb.Controller.Act.{Act, and_then, logged, dropped}
use nghttpx_ingress_lb.Controller.Addresses.Removed.{
  without, remove_address_from_load_balancer_ingress-without,
}
use nghttpx_ingress_lb.Controller.Annotation.{validate_ingress_class}
use nghttpx_ingress_lb.Controller.Status.{
  Client, get_this_pod, get_pod_address, write_answer, write_without, remove_from, got_ingress,
  address_removed, remove_loop, remove_address,
}

module _ (cache : Caches) (lbc : LoadBalancerController) {W : Type 0} (client : Client W) where
  -- By the documented behaviour of `wait.Poll`, it panics only if its condition does.
  module _
      (poll_safe : (m : Act W Bool) (w : W)
        → ((w1 : W) → (m w1).0 ≢ panic)
        → (client.poll m w).0 ≢ panic) where
    abbrev Calm : {A : Type 0} → Act W A → Type 0
    Calm m = (w : W) → (m w).0 ≢ panic

    and_then-Calm :
        {A B : Type 0} (r : Result A × W) (f : A → Act W B)
        → r.0 ≢ panic
        → ((a : A) → Calm (f a))
        → (and_then r f).0 ≢ panic
    and_then-Calm (ok a, w) f h k = k a w
    and_then-Calm (err e, w) f h k = λ c. cc
    and_then-Calm (panic, w) f h k = λ c. h refl

    logged-Calm : (m : Act W (Unit {0})) → Calm m → Calm (logged m)
    logged-Calm m h w = of (m w) (h w)
      where
        of : (r : Result (Unit {0}) × W) → r.0 ≢ panic → (dropped r).0 ≢ panic
        of (ok u, w') k = λ c. cc
        of (err e, w') k = λ c. cc
        of (panic, w') k = λ c. k refl

    address_removed-Calm :
        (addr : String) (ing : Ingress) → Calm (address_removed cache lbc client addr ing)
    unfolding address_removed got_ingress remove_from write_without write_answer
    address_removed-Calm addr ing w = of (client.get_ingress ing.namespace ing.name w)
      where
        write_answer-Calm : (r : Try Ingress × W) → (write_answer cache lbc client r).0 ≢ panic
        write_answer-Calm (failed e, w') = λ c. cc
        write_answer-Calm (got i, w') = λ c. cc

        remove_from-Calm : (i : Ingress) → Calm (remove_from cache lbc client addr i)
        remove_from-Calm i w' = elim (Bool-cases (length i.load_balancer == 0)) [
          | inl e ↦ rw e (λ c. cc)
          | inr e ↦
              rw (e, remove_address_from_load_balancer_ingress-without i.load_balancer addr)
                (elim (Bool-cases
                  (length i.load_balancer == length (without addr i.load_balancer))) [
                    | inl k ↦ rw k (λ c. cc)
                    | inr k ↦ rw k (write_answer-Calm _)
                  ])
        ]

        of : (r : Try Ingress × W) → (got_ingress cache lbc client addr r).0 ≢ panic
        of (failed e, w') = elim (Bool-cases (client.is_not_found e)) [
          | inl k ↦ rw k (λ c. cc)
          | inr k ↦ rw k (λ c. cc)
        ]
        of (got i, w') = remove_from-Calm i w'

    remove_loop-Calm :
        (addr : String) (ings : List Ingress) → Calm (remove_loop cache lbc client addr ings)
    unfolding remove_loop
    remove_loop-Calm addr [] w = λ c. cc
    remove_loop-Calm addr (ing ∷ rest) w = elim (Bool-cases (validate_ingress_class lbc ing)) [
      | inl v ↦ rw v (
          and_then-Calm (logged (client.poll (address_removed cache lbc client addr ing)) w) _
            (logged-Calm (client.poll (address_removed cache lbc client addr ing))
              (λ w1.
                poll_safe (address_removed cache lbc client addr ing) w1
                  (address_removed-Calm addr ing))
              w)
            (λ _. remove_loop-Calm addr rest))
      | inr v ↦ rw v (remove_loop-Calm addr rest w)
    ]

    pub remove_address-Calm : Calm (remove_address cache lbc client)
    unfolding remove_address remove_loop address_removed
    remove_address-Calm w = of_pod (get_this_pod cache lbc) refl
      where
        of_ings :
            (pod : Pod) (addr : String)
            → get_this_pod cache lbc ≡ got pod
            → get_pod_address cache lbc pod ≡ got addr
            → (t : Try (List Ingress)) → cache.ingresses ≡ t
            → (remove_address cache lbc client w).0 ≢ panic
        of_ings pod addr h k (failed e) l = rw (h, k, l) (λ c. cc)
        of_ings pod addr h k (got ings) l = rw (h, k, l) (remove_loop-Calm addr ings w)

        of_addr :
            (pod : Pod)
            → get_this_pod cache lbc ≡ got pod
            → (t : Try String) → get_pod_address cache lbc pod ≡ t
            → (remove_address cache lbc client w).0 ≢ panic
        of_addr pod h (failed e) k = rw (h, k) (λ c. cc)
        of_addr pod h (got addr) k = of_ings pod addr h k cache.ingresses refl

        of_pod :
            (t : Try Pod)
            → get_this_pod cache lbc ≡ t
            → (remove_address cache lbc client w).0 ≢ panic
        of_pod (failed e) h = rw h (λ c. cc)
        of_pod (got pod) h = of_addr pod h (get_pod_address cache lbc pod) refl
