-- ===== src/Nghttpx/Diff.antt =====
-- `diff` of pkg/nghttpx/utils.go, and `needsReload` with its call of it for the log. Running the command
-- `diff` is a parameter.
pub mod Laws
mod Tests
use nghttpx_ingress_lb.Common.{
  String, Bool, true, false, Option, none, some, List, [], ◌∷◌, Try, failed, got, if◌then◌else◌,
}
use nghttpx_ingress_lb.Api.{Bytes}
use nghttpx_ingress_lb.Nghttpx.Io.{Io, Os, ◌>>=◌, pure, reads}
use nghttpx_ingress_lb.Nghttpx.Files.{same_bytes, read_file}

-- The output of the command, and its error: an error is dropped if there is output.
output : Bytes × Option String → Try Bytes
output ([], none) = got []
output ([], some e) = failed e
output (b ∷ bs, e) = got (b ∷ bs)

-- `run_diff` is `exec.Command("diff", "-u", …).CombinedOutput()`.
module _ {W : Type 0} (os : Os W)
    (run_diff : String → String → W → (Bytes × Option String) × W) where
  -- The deferred `os.Remove`, whatever came before it.
  removing : {A : Type 0} → String → Io W A → Io W A
  removing f m w = let (r, w') = m w in (r, (os.remove f w').1)

  -- `f.Write(b)`, whose error is dropped
  filled : String → Bytes → W → W
  filled f b w = (os.write_bytes f b w).1

  compared : String → String → Bytes → Bytes → Io W Bytes
  unfolding output filled
  compared f1 f2 b1 b2 w =
      let (r, w') = run_diff f1 f2 (filled f2 b2 (filled f1 b1 w)) in (output r, w')

  unfoldable pub diff : Bytes → Bytes → Io W Bytes
  unfolding removing compared
  diff b1 b2 = os.temp_file "" >>= λ f1.
      removing f1 (os.temp_file "" >>= λ f2. removing f2 (compared f1 f2 b1 b2))

  -- `needsReload`, where `verbose` is `glog.V(2)`. An error of `diff` is logged, and nothing else.
  unfoldable pub needs_reload_logged : Bool → String → Bytes → Io W Bool
  needs_reload_logged verbose filename new_cfg = reads (read_file os filename) >>= λ old_cfg.
      if same_bytes old_cfg new_cfg
      then pure false
      else if verbose
      then (λ w. (got true, (diff old_cfg new_cfg w).1))
      else pure true
