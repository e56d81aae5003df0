-- ===== src/Controller/Sync/Unlost.antt =====
-- The handlers, the queue and the worker side by side, with the caches that change meanwhile.
use mathlib.Core.List.{Memᴰ}
use nghttpx_ingress_lb.Common.{
  ◌≡◌, ◌∙◌, inl, inr, refl, sym, ap, String, Bool, true, false, Option, some, List, [], ◌∷◌, ◌++◌,
  ◌≢◌, if◌then◌else◌, Bool-cases,
}
use nghttpx_ingress_lb.Controller.Env.{LoadBalancerController, Caches}
use nghttpx_ingress_lb.Controller.Upstreams.{Environment}
use nghttpx_ingress_lb.Controller.Queue.{WorkQueue, waits, gives, QueueLaws}
use nghttpx_ingress_lb.Controller.Notifications.{
  Object, Event, Informer, services, sync_key, notify,
}
use nghttpx_ingress_lb.Controller.Notifications.Laws.{IsEvent, concerns, notify-concerns}
use nghttpx_ingress_lb.Controller.Sync.Heeded.{made_config, IsKept, IsChange}
use nghttpx_ingress_lb.Controller.Sync.Stays.{IsIndexed, IsChange-stays}
use nghttpx_ingress_lb.Controller.Sync.Heeded.Laws.{IsChange-heeded}

-- What the worker is at: it is about to call `Get`, it has an item and has not read the caches yet (the rate
-- limiter comes first), or it has read them.
pub data Phase : Type 0 where
  idle fetched working : Phase

-- `read` are the caches that the last synchronisation read, and `undelivered` the events whose changes the
-- caches have and whose handlers have not been called.
pub record System (Q : Type 0) : Type 0 where
  pub caches : Caches
  pub read : Option Caches
  pub undelivered : List (Informer × Event)
  pub queue_state : Q
  pub phase : Phase

module _ (deep_equal : Object → Object → Bool) (env : Environment) (lbc : LoadBalancerController)
    {Q : Type 0} (queue : WorkQueue Q) where
  -- The informers run side by side: each changes its cache and calls the handler later, whatever the others
  -- have done meanwhile; the handler looks at the caches as they then are. The services do not change. The
  -- worker takes an item, whatever it is, reads the caches at some later moment, and is done with it after.
  pub data Step : System Q → System Q → Type 0 where
    changed :
        (s : System Q) (c : Caches) (i : Informer) (e : Event)
        → IsEvent i e
        → i ≢ services
        → IsKept env lbc s.caches
        → IsIndexed s.caches
        → IsIndexed c
        → IsChange env lbc s.caches c i e
        → Step s (record s { caches = c; undelivered = (i, e) ∷ s.undelivered })
    delivered :
        (s : System Q) (i : Informer) (e : Event) (xs ys : List (Informer × Event))
        → s.undelivered ≡ xs ++ (i, e) ∷ ys
        → IsEvent i e
        → Step s (record s {
          undelivered = xs ++ ys;
          queue_state = (notify deep_equal env.lib s.caches lbc queue i e s.queue_state).1;
        })
    began :
        (s : System Q) (k : String) (q : Q)
        → s.phase ≡ idle
        → queue.get s.queue_state ≡ gives k false q
        → Step s (record s { queue_state = q; phase = fetched })
    looked :
        (s : System Q)
        → s.phase ≡ fetched
        → Step s (record s { read = some s.caches; phase = working })
    ended :
        (s : System Q) (k : String)
        → s.phase ≡ working
        → Step s (record s { queue_state = queue.done k s.queue_state; phase = idle })

  pub data Steps : System Q → System Q → Type 0 where
    none_left : (s : System Q) → Steps s s
    next : (s t u : System Q) → Step s t → Steps t u → Steps s u

  -- The last synchronisation read caches that make the same configuration as the present ones.
  abbrev pub IsCurrent : System Q → Type 0
  IsCurrent s =
      (c : Caches) × (s.read ≡ some c) × (made_config env lbc c ≡ made_config env lbc s.caches)

  module _ (equal : (a b : Object) → deep_equal a b ≡ true → a ≡ b) (laws : QueueLaws queue) where
    open laws use {
      is_added, is_processed, is_down, add-is_added, add-keeps, done-keeps, get-waits, add-is_down,
      done-is_down,
    }

    -- A handler that is still to be called queues a synchronisation, if it is called on these caches.
    abbrev WillQueue : Caches → List (Informer × Event) → Type 0
    WillQueue c events =
        (i : Informer) × (e : Event) × Memᴰ (i, e) events
        × (concerns deep_equal env.lib c lbc i e ≡ true)

    -- Nothing is lost: the queue is shut down, or a synchronisation is to come or has not read the caches
    -- yet, or the last one read caches like the present ones.
    pub data NotLost : System Q → Type 0 where
      down : (s : System Q) → is_down s.queue_state ≡ true → NotLost s
      to_deliver : (s : System Q) → WillQueue s.caches s.undelivered → NotLost s
      to_sync : (s : System Q) → is_added s.queue_state sync_key ≡ true → NotLost s
      to_look : (s : System Q) → s.phase ≡ fetched → NotLost s
      current : (s : System Q) → IsCurrent s → NotLost s

    -- An event that is not the one that is taken out is still there.
    still_there :
        (xs ys : List (Informer × Event)) (x y : Informer × Event)
        → (y ≡ x → ⊥)
        → Memᴰ y (xs ++ x ∷ ys)
        → Memᴰ y (xs ++ ys)
    still_there [] ys x y apart (Memᴰ.head same) = absurd (apart same)
    still_there [] ys x y apart (Memᴰ.tail m) = m
    still_there (z ∷ xs) ys x y apart (Memᴰ.head same) = Memᴰ.head same
    still_there (z ∷ xs) ys x y apart (Memᴰ.tail m) = Memᴰ.tail (still_there xs ys x y apart m)

    delivered-NotLost :
        (s : System Q) (i : Informer) (e : Event) (xs ys : List (Informer × Event))
        → s.undelivered ≡ xs ++ (i, e) ∷ ys
        → IsEvent i e
        → NotLost s
        → NotLost (record s {
          undelivered = xs ++ ys;
          queue_state = (notify deep_equal env.lib s.caches lbc queue i e s.queue_state).1;
        })
    delivered-NotLost s i e xs ys u v n =
        rw (notify-concerns deep_equal env.lib s.caches lbc queue i e s.queue_state v)
          (of (concerns deep_equal env.lib s.caches lbc i e) refl n)
      where
        after : Bool → System Q
        after wanted = record s {
          undelivered = xs ++ ys;
          queue_state = if wanted then queue.add sync_key s.queue_state else s.queue_state;
        }

        of :
            (b : Bool)
            → concerns deep_equal env.lib s.caches lbc i e ≡ b
            → NotLost s
            → NotLost (after b)
        of true c n = elim (Bool-cases (is_down s.queue_state)) [
          | inl d ↦ down (after true) (add-is_down sync_key s.queue_state ∙ d)
          | inr d ↦ to_sync (after true) (add-is_added sync_key s.queue_state d)
        ]
        of false c (down _ d) = down (after false) d
        of false c (to_deliver _ (i', e', m, c')) = to_deliver (after false) (
          i',
          e',
          still_there xs ys (i, e) (i', e')
              (λ same.
                let k : concerns deep_equal env.lib s.caches lbc i e ≡ true =
                  ap (λ p. concerns deep_equal env.lib s.caches lbc p.0 p.1) (sym same) ∙ c' in
                let absurd : false ≡ true = sym c ∙ k in cc)
              (rw u at m),
          c',
        )
        of false c (to_sync _ a) = to_sync (after false) a
        of false c (to_look _ p) = to_look (after false) p
        of false c (current _ k) = current (after false) k

    changed-NotLost :
        (s : System Q) (c : Caches) (i : Informer) (e : Event)
        → i ≢ services
        → IsKept env lbc s.caches
        → IsIndexed s.caches
        → IsIndexed c
        → IsChange env lbc s.caches c i e
        → NotLost s
        → NotLost (record s { caches = c; undelivered = (i, e) ∷ s.undelivered })
    changed-NotLost s c i e apart kept k k' change n =
        elim (Bool-cases (concerns deep_equal env.lib c lbc i e)) [
          | inl h ↦
              to_deliver (record s { caches = c; undelivered = (i, e) ∷ s.undelivered })
                (i, e, Memᴰ.head refl, h)
          | inr h ↦ of h (same h) n
        ]
      where
        after : System Q
        after = record s { caches = c; undelivered = (i, e) ∷ s.undelivered }

        same :
            concerns deep_equal env.lib c lbc i e ≡ false
            → made_config env lbc c ≡ made_config env lbc s.caches
        same h = elim (IsChange-heeded deep_equal equal env lbc s.caches kept c i e change) [
          | inl g ↦ let absurd : true ≡ false = sym g ∙ h in cc
          | inr g ↦ g
        ]

        of :
            concerns deep_equal env.lib c lbc i e ≡ false
            → made_config env lbc c ≡ made_config env lbc s.caches
            → NotLost s
            → NotLost after
        of h o (down _ d) = down after d
        of h o (to_deliver _ (j, d, m, g)) = to_deliver after (
          j,
          d,
          Memᴰ.tail m,
          IsChange-stays deep_equal equal env lbc s.caches c i e k k' apart change h j d g,
        )
        of h o (to_sync _ a) = to_sync after a
        of h o (to_look _ p) = to_look after p
        of h o (current _ (b, r, q)) = current after (b, r, q ∙ sym o)

    ended-NotLost :
        (s : System Q) (k : String)
        → s.phase ≡ working
        → NotLost s
        → NotLost (record s { queue_state = queue.done k s.queue_state; phase = idle })
    ended-NotLost s k p (down _ d) = down _ (done-is_down k s.queue_state ∙ d)
    ended-NotLost s k p (to_deliver _ w) = to_deliver _ w
    ended-NotLost s k p (to_sync _ a) = to_sync _ (done-keeps k s.queue_state sync_key ∙ a)
    ended-NotLost s k p (to_look _ f) = let absurd : working ≡ fetched = sym p ∙ f in cc
    ended-NotLost s k p (current _ c) = current _ c

    Step-NotLost : (s t : System Q) → Step s t → NotLost s → NotLost t
    Step-NotLost s t (changed _ c i e v apart kept k k' h) n =
        changed-NotLost s c i e apart kept k k' h n
    Step-NotLost s t (delivered _ i e xs ys u v) n = delivered-NotLost s i e xs ys u v n
    Step-NotLost s t (began _ k q p g) n = to_look _ refl
    Step-NotLost s t (looked _ p) n = current _ (s.caches, refl, refl)
    Step-NotLost s t (ended _ k p) n = ended-NotLost s k p n

    -- At every moment of a run that begins so, the queue is shut down, or a handler is still to be called
    -- that will queue a synchronisation, or one is queued or has not read the caches yet, or the last one
    -- read caches that make the same configuration as the present ones.
    Steps-NotLost : (s t : System Q) → Steps s t → NotLost s → NotLost t
    Steps-NotLost s t (none_left _) n = n
    Steps-NotLost s t (next _ m _ h k) n = Steps-NotLost m t k (Step-NotLost s m h n)

    -- The informers run side by side, and so do the worker and they. In every run in which the services do
    -- not change, from a state in which nothing is lost: when all has come to rest, with no handler still to be called,
    -- `Get` waiting, the worker idle, nothing being processed and the queue not shut down, the last
    -- synchronisation read caches that make the same configuration as the present ones, or the same error.
    -- The queue is as documented; a synchronisation reads the caches in one moment after `Get`, and a
    -- handler in one moment; objects that `reflect.DeepEqual` takes for equal are equal; the listers are
    -- kept as `IsKept` and `IsIndexed` say, and the informers change the caches as `IsChange` says.
    pub Steps-IsCurrent :
        (s t : System Q)
        → Steps s t
        → NotLost s
        → t.undelivered ≡ []
        → queue.get t.queue_state ≡ waits
        → t.phase ≡ idle
        → is_processed t.queue_state sync_key ≡ false
        → is_down t.queue_state ≡ false
        → IsCurrent t
    Steps-IsCurrent s t h n u g i p d = of t u g i p d (Steps-NotLost s t h n)
      where
        of :
            (t : System Q)
            → t.undelivered ≡ []
            → queue.get t.queue_state ≡ waits
            → t.phase ≡ idle
            → is_processed t.queue_state sync_key ≡ false
            → is_down t.queue_state ≡ false
            → NotLost t
            → IsCurrent t
        of t u g i p d (down _ d') = let absurd : false ≡ true = sym d ∙ d' in cc
        of t u g i p d (to_deliver _ (j, e, m, c)) = elim (rw u at m) [ ]
        of t u g i p d (to_sync _ a) =
            let absurd : true ≡ false = sym a ∙ get-waits t.queue_state sync_key g p in cc
        of t u g i p d (to_look _ f) = let absurd : idle ≡ fetched = sym i ∙ f in cc
        of t u g i p d (current _ k) = k
