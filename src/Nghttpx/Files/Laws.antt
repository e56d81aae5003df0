-- ===== src/Nghttpx/Files/Laws.antt =====
-- The documented behaviour of the file operations, and what `needsReload` and `writeFile` do by it.
use nghttpx_ingress_lb.Common.{
  String, ◌≡◌, ◌≢◌, ◌↔◌, refl, ap, Bool, true, false, [], ◌∷◌, not, Try, failed, got, arith,
}
use mathlib.Core.Path.{subst}
use nghttpx_ingress_lb.Api.{Bytes}
use nghttpx_ingress_lb.Nghttpx.Io.{Io, Os, ◌>>=◌, wrap, wrapped, when, after}
use nghttpx_ingress_lb.Nghttpx.Files.{same_bytes, read_file, needs_reload, written, write_file}

pub same_bytes_iff : (a b : Bytes) → (same_bytes a b ≡ true) ↔ (a ≡ b)
same_bytes_iff [] [] = ((λ e. refl), λ e. refl)
same_bytes_iff [] (y ∷ ys) = ground arith
same_bytes_iff (x ∷ xs) [] = ground arith
same_bytes_iff (x ∷ xs) (y ∷ ys) = ground (arith, same_bytes_iff xs ys)

module _ {W : Type 0} (os : Os W) where
  -- An operation that does not touch the contents `c` of the file `p`.
  abbrev pub Keeps : String → Bytes → {A : Type 0} → Io W A → Type 0
  Keeps p c m = (w : W) → read_file os p w ≡ got c → read_file os p (m w).1 ≡ got c

  -- A temporary file is a new one. Writing, renaming and removing touch the files that they are given
  -- and no other; a rename that fails touches none. The connections and processes that the program
  -- starts do not write to its files, and `wait.Poll` touches only what its condition touches.
  pub record FileLaws : Type 1 where
    pub temp-fresh :
        (d t : String) (w w' : W) (c : Bytes)
        → os.temp_file d w ≡ (got t, w')
        → read_file os t w ≢ got c
    pub temp-Keeps : (d p : String) (c : Bytes) → Keeps p c (os.temp_file d)
    pub write-content :
        (t : String) (c : Bytes) (w w' : W)
        → os.write_bytes t c w ≡ (got tt, w')
        → read_file os t w' ≡ got c
    pub write-Keeps : (t p : String) (b c : Bytes) → p ≢ t → Keeps p c (os.write_bytes t b)
    pub remove-Keeps : (t p : String) (c : Bytes) → p ≢ t → Keeps p c (os.remove t)
    pub rename-content :
        (t p : String) (c : Bytes) (w w' : W)
        → read_file os t w ≡ got c
        → os.rename t p w ≡ (got tt, w')
        → read_file os p w' ≡ got c
    pub rename-Keeps : (t q p : String) (c : Bytes) → p ≢ t → p ≢ q → Keeps p c (os.rename t q)
    pub rename-failed :
        (t q p m : String) (c : Bytes) (w w' : W)
        → os.rename t q w ≡ (failed m, w')
        → read_file os p w ≡ got c
        → read_file os p w' ≡ got c
    pub http_get-Keeps : (url p : String) (c : Bytes) → Keeps p c (os.http_get url)
    pub do_post-Keeps : (url q p : String) (c : Bytes) → Keeps p c (os.do_post url q)
    pub killall-Keeps : (p : String) (c : Bytes) → Keeps p c os.killall
    pub poll-Keeps : (p : String) (c : Bytes) (m : Io W Bool) → Keeps p c m → Keeps p c (os.poll m)

  -- Keeping a file passes through the ways of putting operations together.
  pub bind-Keeps :
      (p : String) (c : Bytes) {A B : Type 0} (m : Io W A) (f : A → Io W B)
      → Keeps p c m
      → ((a : A) → Keeps p c (f a))
      → Keeps p c (m >>= f)
  bind-Keeps p c {A} m f k l w h = go (m w) (k w h)
    where
      go : (r : Try A × W) → read_file os p r.1 ≡ got c → read_file os p (after r f).1 ≡ got c
      go (failed e, w') h' = h'
      go (got a, w') h' = l a w' h'

  pub wrap-Keeps :
      (p : String) (c : Bytes) {A : Type 0} (f : String → String) (m : Io W A)
      → Keeps p c m
      → Keeps p c (wrap f m)
  wrap-Keeps p c {A} f m k w h = go (m w) (k w h)
    where
      go : (r : Try A × W) → read_file os p r.1 ≡ got c → read_file os p (wrapped f r).1 ≡ got c
      go (failed e, w') h' = h'
      go (got a, w') h' = h'

  pub when-Keeps :
      (p : String) (c : Bytes) (b : Bool) (m : Io W (Unit {0})) → Keeps p c m → Keeps p c (when b m)
  when-Keeps p c true m k w h = k w h
  when-Keeps p c false m k w h = h

  -- A file that cannot be read is an error; else `needsReload` tells whether the contents differ.
  pub needs_reload_of_got :
      (filename : String) (old new : Bytes) (w : W)
      → read_file os filename w ≡ got old
      → needs_reload os filename new w ≡ (got (not (same_bytes old new)), w)
  unfolding needs_reload
  needs_reload_of_got filename old new w e = rw e refl

  module _ (laws : FileLaws) where
    pub temp_other :
        (d t p : String) (w w' : W) (c : Bytes)
        → os.temp_file d w ≡ (got t, w')
        → read_file os p w ≡ got c
        → p ≢ t
    temp_other d t p w w' c e h k = laws.temp-fresh d t w w' c e (rw (← k) h)

    -- What a write of `content` to `path` has come to: it is there, or no file has changed.
    pub data Wrote (path : String) (content : Bytes) (w : W) : Try (Unit {0}) × W → Type 0 where
      renewed :
          (w' : W)
          → read_file os path w' ≡ got content
          → ((p : String) (c : Bytes)
              → p ≢ path
              → read_file os p w ≡ got c
              → read_file os p w' ≡ got c)
          → Wrote path content w (got tt, w')
      kept :
          (e : String) (w' : W)
          → ((p : String) (c : Bytes) → read_file os p w ≡ got c → read_file os p w' ≡ got c)
          → Wrote path content w (failed e, w')

    -- By the documented behaviour of the file operations, `writeFile` is atomic: if it returns no error, the file has the new contents, and every other
    -- file that could be read has the contents it had; if it returns an error, every file that could
    -- be read has the contents it had, the one to be written included.
    pub write_file-Wrote :
        (path : String) (content : Bytes) (w : W)
        → Wrote path content w (write_file os path content w)
    unfolding write_file written
    write_file-Wrote path content w = made (os.temp_file d w) refl
      where
        d : String
        d = os.dir_of path

        renamed :
            (temp : String) (w1 : W) (r : Try (Unit {0}) × W)
            → ((p : String) (c : Bytes)
                → read_file os p w ≡ got c
                → (p ≢ temp) × (read_file os p w1 ≡ got c))
            → read_file os temp w1 ≡ got content
            → os.rename temp path w1 ≡ r
            → Wrote path content w r
        renamed temp w1 (failed e, w2) k t h =
            kept e w2 (λ p c r. laws.rename-failed temp path p e c w1 w2 h (k p c r).1)
        renamed temp w1 (got u, w2) k t h =
            renewed w2 (laws.rename-content temp path content w1 w2 t h) (λ p c n r.
              let (n', r') = k p c r in
              subst (λ s. read_file os p s.1 ≡ got c) h
                (laws.rename-Keeps temp path p c n' n w1 r'))

        stored :
            (temp : String) (w1 : W) (r : Try (Unit {0}) × W)
            → ((p : String) (c : Bytes)
                → read_file os p w ≡ got c
                → (p ≢ temp) × (read_file os p w1 ≡ got c))
            → os.write_bytes temp content w1 ≡ r
            → Wrote path content w (written os temp path r)
        stored temp w1 (failed e, w2) k h = kept e (os.remove temp w2).1 (λ p c r.
            let (n, r') = k p c r in
            laws.remove-Keeps temp p c n w2 (
              subst (λ s. read_file os p s.1 ≡ got c) h
                (laws.write-Keeps temp p content c n w1 r')))
        stored temp w1 (got u, w2) k h =
            renamed temp w2 (os.rename temp path w2)
              (λ p c r.
                let (n, r') = k p c r in
                (
                  n,
                  subst (λ s. read_file os p s.1 ≡ got c) h
                      (laws.write-Keeps temp p content c n w1 r'),
                ))
              (laws.write-content temp content w1 w2 h) refl

        made :
            (r : Try String × W)
            → os.temp_file d w ≡ r
            → Wrote path content w
                (after r (λ temp w1. written os temp path (os.write_bytes temp content w1)))
        made (failed e, w1) h =
            kept e w1
              (λ p c r. subst (λ s. read_file os p s.1 ≡ got c) h (laws.temp-Keeps d p c w r))
        made (got temp, w1) h =
            stored temp w1 (os.write_bytes temp content w1)
              (λ p c r. (
                temp_other d temp p w w1 c h r,
                subst (λ s. read_file os p s.1 ≡ got c) h (laws.temp-Keeps d p c w r),
              ))
              refl

    -- A file that is not the one written keeps its contents.
    pub write_file-Keeps :
        (path p : String) (b c : Bytes) → p ≢ path → Keeps p c (write_file os path b)
    write_file-Keeps path p b c n w h = go (write_file os path b w) (write_file-Wrote path b w)
      where
        go : (r : Try (Unit {0}) × W) → Wrote path b w r → read_file os p r.1 ≡ got c
        go r (renewed w' e k) = k p c n h
        go r (kept e w' k) = k p c h

    -- A write that returns no error has written.
    pub write_file-content :
        (path : String) (b : Bytes) (w w' : W)
        → write_file os path b w ≡ (got tt, w')
        → read_file os path w' ≡ got b
    write_file-content path b w w' h = go (write_file os path b w) (write_file-Wrote path b w) h
      where
        go :
            (r : Try (Unit {0}) × W)
            → Wrote path b w r
            → r ≡ (got tt, w')
            → read_file os path w' ≡ got b
        go r (renewed w1 e k) h' = rw (← ap (λ s. s.1) h') e
        go r (kept e w1 k) h' = cc
