-- ===== src/Nghttpx/Files.antt =====
-- `needsReload` and `writeFile` of pkg/nghttpx/utils.go. The diff that `needsReload` logs is omitted.
pub mod Laws
use nghttpx_ingress_lb.Common.{
  ℕ, String, Bool, true, false, Option, none, some, List, [], ◌∷◌, ◌&&◌, ◌==◌, not, Try, failed,
  got,
}
use nghttpx_ingress_lb.Api.{Bytes}
use nghttpx_ingress_lb.Nghttpx.Io.{Io, Os, ◌>>=◌, pure, reads, after}

-- `bytes.Equal`
abbrev pub same_bytes : Bytes → Bytes → Bool
same_bytes [] [] = true
same_bytes [] (y ∷ ys) = false
same_bytes (x ∷ xs) [] = false
same_bytes (x ∷ xs) (y ∷ ys) = x == y && same_bytes xs ys

module _ {W : Type 0} (os : Os W) where
  abbrev opened : Option String → Try Bytes → Try Bytes
  opened (some e) t = failed e
  opened none t = t

  -- `os.Open` and `ioutil.ReadAll`
  abbrev pub read_file : String → W → Try Bytes
  read_file filename w = opened (os.open_file filename w) (os.read_all filename w)

  unfoldable pub needs_reload : String → Bytes → Io W Bool
  needs_reload filename new_cfg =
      reads (read_file filename) >>= λ old_cfg. pure (not (same_bytes old_cfg new_cfg))

  -- A failed write to the temporary file: it is removed, and the error is returned.
  written : String → String → Try (Unit {0}) × W → Try (Unit {0}) × W
  written temp path (failed e, w) = (failed e, (os.remove temp w).1)
  written temp path (got _, w) = os.rename temp path w

  unfoldable pub write_file : String → Bytes → Io W (Unit {0})
  unfolding written
  write_file path content = os.temp_file (os.dir_of path) >>= λ temp.
      λ w. written temp path (os.write_bytes temp content w)
