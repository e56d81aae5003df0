-- ===== src/Nghttpx/Process/Laws.antt =====
-- What a call of `Manager.Start` keeps true, and that it comes to an end.
use nghttpx_ingress_lb.Common.{
  ℕ, ◌+◌, ◌<◌, ◌≤◌, ◌≡◌, ◌≢◌, ◌⊎◌, ◌&&◌, ◌∙◌, sym, inl, inr, refl, Bool, Bool-cases, true, false,
  arith, if◌then◌else◌,
}
use nghttpx_ingress_lb.Nghttpx.Process.{
  Place, entered, selecting, stopping, waiting, returned, Nghttpx, StartStep, start_failed,
  start_succeeded, wait_returned, select_done, select_stop, signalled, exited,
}

abbrev place_weight : Place → ℕ
place_weight entered = 5
place_weight selecting = 3
place_weight stopping = 2
place_weight waiting = 1
place_weight returned = 0

-- The steps that are left of the process, at most.
abbrev pub process_weight : Nghttpx → ℕ
process_weight p =
    place_weight p.place + (if p.alive then 1 else 0) + (if p.wait_done then 0 else 1)

pub StartStep-weight :
    (b : Bool) (p q : Nghttpx) → StartStep b p q → process_weight q < process_weight p
StartStep-weight b p q (start_failed _ e) = ground arith
StartStep-weight b p q (start_succeeded _ e) = ground arith
StartStep-weight b p q (wait_returned _ e r a w) = ground arith
StartStep-weight b p q (select_done _ e w) = ground arith
StartStep-weight b p q (select_stop _ e w) = ground arith
StartStep-weight b p q (signalled _ e) = ground arith
StartStep-weight b p q (exited _ e w) = ground arith

-- By place: whether the process may run, whether the goroutine may have seen its end, and how often QUIT
-- was sent.
abbrev pub IsPlaced : Bool → Place → Bool → Bool → ℕ → Type 0
IsPlaced stop entered alive done quits = (alive ≡ false) × (done ≡ false) × (quits ≡ 0)
IsPlaced stop selecting alive done quits = ((alive && done) ≡ false) × (quits ≡ 0)
IsPlaced stop stopping alive done quits = ((alive && done) ≡ false) × (quits ≡ 0) × (stop ≡ true)
IsPlaced stop waiting alive done quits = ((alive && done) ≡ false) × (quits ≡ 1) × (stop ≡ true)
IsPlaced stop returned alive done quits =
    (alive ≡ false) × ((quits ≡ 0) ⊎ ((quits ≡ 1) × (stop ≡ true)))

abbrev pub IsInOrder : Bool → Nghttpx → Type 0
IsInOrder stop p = IsPlaced stop p.place p.alive p.wait_done p.quits

pub StartStep-IsInOrder :
    (b : Bool) (p q : Nghttpx) → StartStep b p q → IsInOrder b p → IsInOrder b q
StartStep-IsInOrder b p q (start_failed _ e) h = ground arith
StartStep-IsInOrder b p q (start_succeeded _ e) h = ground arith
StartStep-IsInOrder b p q (wait_returned _ e r a w) h = of p.place e r h
  where
    of :
        (at : Place)
        → at ≢ entered
        → at ≢ returned
        → IsPlaced b at p.alive p.wait_done p.quits
        → IsPlaced b at p.alive true p.quits
    of entered e r h = absurd (e refl)
    of selecting e r h = ground arith
    of stopping e r h = ground arith
    of waiting e r h = ground arith
    of returned e r h = absurd (r refl)
StartStep-IsInOrder b p q (select_done _ e w) h = ground arith
StartStep-IsInOrder b p q (select_stop _ e w) h = ground arith
StartStep-IsInOrder b p q (signalled _ e) h = ground arith
StartStep-IsInOrder b p q (exited _ e w) h = ground arith

-- The closing of `stopCh` keeps the order, and so does the end of the process.
pub IsInOrder-stopped : (b : Bool) (p : Nghttpx) → IsInOrder b p → IsInOrder true p
IsInOrder-stopped b p h = of p.place h
  where
    of :
        (at : Place)
        → IsPlaced b at p.alive p.wait_done p.quits
        → IsPlaced true at p.alive p.wait_done p.quits
    of entered h = h
    of selecting h = h
    of stopping h = (h.0, h.1, refl)
    of waiting h = (h.0, h.1, refl)
    of returned h = (h.0, elim (h.1) [ inl e ↦ inl e | inr (e, _) ↦ inr (e, refl) ])

pub IsInOrder-ended :
    (b : Bool) (p : Nghttpx) → IsInOrder b p → IsInOrder b (record p { alive = false })
IsInOrder-ended b p h = of p.place h
  where
    of :
        (at : Place)
        → IsPlaced b at p.alive p.wait_done p.quits
        → IsPlaced b at false p.wait_done p.quits
    of entered h = (refl, h.1, h.2)
    of selecting h = (refl, h.1)
    of stopping h = (refl, h.1, h.2)
    of waiting h = (refl, h.1, h.2)
    of returned h = (refl, h.1)

-- Whether the only thing that `Start` waits for is the end of the process, which it has told to quit.
abbrev pub AwaitsExit : Nghttpx → Type 0
AwaitsExit p = (p.place ≡ waiting) × (p.alive ≡ true) × (p.quits ≡ 1)

-- Once `stopCh` is closed, a call of `Start` has returned and the process does not run, or it can take a
-- step, or it has sent QUIT once and the process has not ended yet.
pub Start_ends :
    (p : Nghttpx)
    → IsInOrder true p
    → ((p.place ≡ returned) × (p.alive ≡ false))
      ⊎ ((q : Nghttpx) × StartStep true p q)
      ⊎ AwaitsExit p
Start_ends p h = of p.place refl h
  where
    of :
        (at : Place)
        → p.place ≡ at
        → IsPlaced true at p.alive p.wait_done p.quits
        → ((p.place ≡ returned) × (p.alive ≡ false))
          ⊎ ((q : Nghttpx) × StartStep true p q)
          ⊎ AwaitsExit p
    of entered e h = inr (inl (_, start_failed p e))
    of selecting e h = inr (inl (_, select_stop p e refl))
    of stopping e h = inr (inl (_, signalled p e))
    of waiting e h = elim (Bool-cases p.alive) [
      | inl a ↦ inr (inr (e, a, h.1))
      | inr a ↦ elim (Bool-cases p.wait_done) [
        | inl w ↦ inr (inl (_, exited p e w))
        | inr w ↦ inr (
            inl (
              _,
              wait_returned p (λ k. let c : waiting ≡ entered = sym e ∙ k in cc)
                  (λ k. let c : waiting ≡ returned = sym e ∙ k in cc) a w,
            ))
      ]
    ]
    of returned e h = inl (e, h.0)

pub IsInOrder-told :
    (b : Bool) (p : Nghttpx)
    → IsInOrder b p
    → (p.quits ≤ 1) × (0 < p.quits → b ≡ true) × (p.place ≡ returned → p.alive ≡ false)
IsInOrder-told b p h = of p.place h
  where
    of :
        (at : Place)
        → IsPlaced b at p.alive p.wait_done p.quits
        → (p.quits ≤ 1) × (0 < p.quits → b ≡ true) × (at ≡ returned → p.alive ≡ false)
    of entered h = (ground arith, λ q. absurd (omega arith), λ e. cc)
    of selecting h = (ground arith, λ q. absurd (omega arith), λ e. cc)
    of stopping h = (ground arith, λ q. h.2, λ e. cc)
    of waiting h = (ground arith, λ q. h.2, λ e. cc)
    of returned h = (ground arith, λ q. ground arith, λ e. h.0)
