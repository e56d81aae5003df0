-- ===== src/Controller/Sync/Heeded/Events.antt =====
-- The objects of an event for which no handler queues a synchronisation.
use mathlib.Core.Option.{some-injective}
use nghttpx_ingress_lb.Common.{
  ◌≡◌, ◌∙◌, ◌⊎◌, inl, inr, refl, sym, ap, Bool, true, false, not, ◌&&◌, ◌||◌, Option, some,
  Bool-cases, arith,
}
use nghttpx_ingress_lb.Controller.Env.{LoadBalancerController, Caches}
use nghttpx_ingress_lb.Controller.Notifications.{Object, Informer, Event}
use nghttpx_ingress_lb.Controller.Notifications.Laws.{is_read, concerns, skips_equal}
use nghttpx_ingress_lb.Controller.Upstreams.{Environment}
use nghttpx_ingress_lb.Controller.Sync.Heeded.{
  Touches, is_new, is_changed, is_gone, is_found_gone, Of,
}

pub Of-some : {A : Type 0} (p : A → Type 0) (a : A) → p a → Of p (some a)
Of-some p a h b same = rw (← some-injective _ _ same) h

-- Either the state of the object is the same after the event, or it is not read in either.
module _ (deep_equal : Object → Object → Bool)
    (equal : (a b : Object) → deep_equal a b ≡ true → a ≡ b) (env : Environment)
    (lbc : LoadBalancerController) (cache : Caches) where
  abbrev pub Unread : {A : Type 0} → (A → Object) → A → Type 0
  Unread wrap a = is_read deep_equal env.lib cache lbc (wrap a) ≡ false

  unread_both :
      (i : Informer) (same old cur : Bool)
      → same ≡ false
      → (not (skips_equal deep_equal env.lib cache lbc i && same) && (old || cur)) ≡ false
      → (old ≡ false) × (cur ≡ false)
  unread_both i same old cur h n = ground arith

  pub quiet :
      {A : Type 0} (wrap : A → Object) (unwrap : Object → Option A)
      → ((a : A) → unwrap (wrap a) ≡ some a)
      → (i : Informer) (e : Event) (old cur : Option A) → Touches wrap e old cur
      → concerns deep_equal env.lib cache lbc i e ≡ false
      → (old ≡ cur) ⊎ (Of (Unread wrap) old × Of (Unread wrap) cur)
  quiet wrap unwrap back i e old cur (is_new a) n = inr (λ b k. cc, Of-some (Unread wrap) a n)
  quiet wrap unwrap back i e old cur (is_changed a b) n =
      elim (Bool-cases (deep_equal (wrap a) (wrap b))) [
        | inl h ↦ inl (sym (back a) ∙ (ap unwrap (equal (wrap a) (wrap b) h) ∙ back b))
        | inr h ↦
            let both = unread_both i (deep_equal (wrap a) (wrap b)) _ _ h n in
            inr (Of-some (Unread wrap) a both.0, Of-some (Unread wrap) b both.1)
      ]
  quiet wrap unwrap back i e old cur (is_gone a) n = inr (Of-some (Unread wrap) a n, λ b k. cc)
  quiet wrap unwrap back i e old cur (is_found_gone a) n =
      inr (Of-some (Unread wrap) a n, λ b k. cc)

-- The object is there before the event or after it.
pub touched :
    {A : Type 0} {wrap : A → Object} {e : Event} {old cur : Option A} (p q : A → Type 0)
    → Touches wrap e old cur
    → Of p old
    → Of p cur
    → Of q old
    → Of q cur
    → (a : A) × p a × q a
touched p q (is_new a) po pc qo qc = (a, pc a refl, qc a refl)
touched p q (is_changed a b) po pc qo qc = (a, po a refl, qo a refl)
touched p q (is_gone a) po pc qo qc = (a, po a refl, qo a refl)
touched p q (is_found_gone a) po pc qo qc = (a, po a refl, qo a refl)
