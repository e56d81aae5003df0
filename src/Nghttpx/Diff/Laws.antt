-- ===== src/Nghttpx/Diff/Laws.antt =====
-- That the diff for the log leaves the files alone.
use nghttpx_ingress_lb.Common.{
  String, ◌≡◌, ◌≢◌, refl, ap, Bool, Bool-cases, inl, inr, Option, Try, failed, got,
}
use nghttpx_ingress_lb.Api.{Bytes}
use nghttpx_ingress_lb.Nghttpx.Io.{Io, Os, ◌>>=◌, after}
use nghttpx_ingress_lb.Nghttpx.Files.{read_file, same_bytes, needs_reload}
use nghttpx_ingress_lb.Nghttpx.Files.Laws.{FileLaws, Keeps, temp_other}
use nghttpx_ingress_lb.Nghttpx.Diff.{removing, filled, compared, diff, needs_reload_logged}

module _ {W : Type 0} (os : Os W) (run_diff : String → String → W → (Bytes × Option String) × W)
    (laws : FileLaws os) (p : String) (c : Bytes)
    -- The command does not write to a file.
    (only_reads : (f g : String) (w : W)
      → read_file os p w ≡ got c
      → read_file os p (run_diff f g w).1 ≡ got c) where
  compared-Keeps :
      (f g : String) (a b : Bytes) → p ≢ f → p ≢ g → Keeps os p c (compared os run_diff f g a b)
  unfolding compared filled
  compared-Keeps f g a b n m w h =
      only_reads f g _ (laws.write-Keeps g p b c m _ (laws.write-Keeps f p a c n w h))

  removing-Keeps :
      {A : Type 0} (f : String) (m : Io W A)
      → p ≢ f
      → Keeps os p c m
      → Keeps os p c (removing os run_diff f m)
  unfolding removing
  removing-Keeps f m n k w h = laws.remove-Keeps f p c n _ (k w h)

  -- What follows the making of a temporary file keeps `p` if it does so for a name that is not `p`.
  with_temp-Keeps :
      {A : Type 0} (m : String → Io W A)
      → ((t : String) → p ≢ t → Keeps os p c (m t))
      → Keeps os p c (os.temp_file "" >>= m)
  with_temp-Keeps {A} m k w h = of (os.temp_file "" w) refl
    where
      of : (r : Try String × W) → os.temp_file "" w ≡ r → read_file os p (after r m).1 ≡ got c
      of (failed e, w1) q = rw (ap (λ s. s.1) q) at (laws.temp-Keeps "" p c w h)
      of (got t, w1) q =
          k t (temp_other os laws "" t p w w1 c q h) w1
            (rw (ap (λ s. s.1) q) at (laws.temp-Keeps "" p c w h))

  -- By the documented behaviour of the file operations, `diff` leaves every file that could be read with
  -- the contents that it had: the temporary files that it makes, fills and removes are other files.
  pub diff-Keeps : (a b : Bytes) → Keeps os p c (diff os run_diff a b)
  unfolding diff
  diff-Keeps a b =
      let second = λ (f g : String). removing os run_diff g (compared os run_diff f g a b) in
      with_temp-Keeps (λ f. removing os run_diff f (os.temp_file "" >>= second f))
        (λ f n. removing-Keeps f (os.temp_file "" >>= second f) n (
          with_temp-Keeps (second f) (λ g m.
            removing-Keeps g (compared os run_diff f g a b) m (compared-Keeps f g a b n m))))

  logged :
      (verbose : Bool) (filename : String) (new : Bytes) (w : W) (r : Try Bytes)
      → read_file os filename w ≡ r
      → read_file os p w ≡ got c
      → ((needs_reload_logged os run_diff verbose filename new w).0
          ≡ (needs_reload os filename new w).0)
        × (read_file os p (needs_reload_logged os run_diff verbose filename new w).1 ≡ got c)
  unfolding needs_reload_logged needs_reload
  logged verbose filename new w (failed e) q h = rw q (refl, h)
  logged verbose filename new w (got old) q h = elim (Bool-cases (same_bytes old new)) [
    | inl k ↦ rw (q, k) (refl, h)
    | inr k ↦ elim (Bool-cases verbose) [
      | inl v ↦ rw (q, k, v) (refl, diff-Keeps old new w h)
      | inr v ↦ rw (q, k, v) (refl, h)
    ]
  ]

  -- By the documented behaviour of the file operations, if the command `diff` changes no file that could
  -- be read, then `needsReload` with its log, verbose or not, returns what it returns without it, and
  -- leaves every file that could be read with the contents that it had.
  pub needs_reload_logged-needs_reload :
      (verbose : Bool) (filename : String) (new : Bytes) (w : W)
      → read_file os p w ≡ got c
      → ((needs_reload_logged os run_diff verbose filename new w).0
          ≡ (needs_reload os filename new w).0)
        × (read_file os p (needs_reload_logged os run_diff verbose filename new w).1 ≡ got c)
  needs_reload_logged-needs_reload verbose filename new w h = logged verbose filename new w _ refl h
