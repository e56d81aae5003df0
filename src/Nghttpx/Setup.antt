-- ===== src/Nghttpx/Setup.antt =====
-- `NewManager` and `createCertsDir` of pkg/nghttpx/main.go, and `loadTemplate` of pkg/nghttpx/template.go.
-- Making a directory and parsing a template are parameters.
pub mod Laws
use nghttpx_ingress_lb.Common.{String, Bool, true, false, Option, none, some, Try, failed, got}
use nghttpx_ingress_lb.Common.Text.{◌<>◌}
use nghttpx_ingress_lb.Api.{Bytes}
use nghttpx_ingress_lb.Nghttpx.Types.{IngressConfig}
use nghttpx_ingress_lb.Nghttpx.Tls.{tls_directory}
use nghttpx_ingress_lb.Nghttpx.Reload.{Manager}

-- An error of `os.Mkdir`, with what `os.IsExist` says of it.
pub record MkdirError : Type 0 where
  pub is_exist : Bool
  pub message : String

-- `mkdir` is `os.Mkdir`, and `parse_files` gives the `Execute` of the template that is parsed from the
-- file of its name in the working directory.
pub record Host (W : Type 0) : Type 0 where
  pub mkdir : String → W → Option MkdirError × W
  pub parse_files : String → W → Try (IngressConfig → Try Bytes)

-- What a function comes to that may exit by `glog.Fatalf` or panic by `template.Must`.
pub data Attempt (A : Type 0) : Type 0 where
  exited : String → Attempt A
  panicked : String → Attempt A
  made : A → Attempt A

abbrev pub then_try : {A B : Type 0} → Attempt A → (A → Attempt B) → Attempt B
then_try (exited e) f = exited e
then_try (panicked e) f = panicked e
then_try (made a) f = f a

-- `template.Must`
must : {A : Type 0} → Try A → Attempt A
must (failed e) = panicked e
must (got a) = made a

abbrev pub Template : Type 0
Template = IngressConfig → Try Bytes

-- The two templates, the main one first.
templates : Try Template → Try Template → Attempt (Template × Template)
unfolding must
templates main backend = then_try (must main) (λ m. then_try (must backend) (λ b. made (m, b)))

abbrev manager_with : Template → Template → Manager
manager_with main backend = record {
  config_file = "/etc/nghttpx/nghttpx.conf";
  backend_config_file = "/etc/nghttpx/nghttpx-backend.conf";
  template = main;
  backend_template = backend;
}

module _ {W : Type 0} (host : Host W) where
  -- what `createCertsDir` does with the result of `os.Mkdir`
  checked_dir : String → Option MkdirError → Attempt (Unit {0})
  checked_dir base none = made tt
  checked_dir base (some e) = elim e.is_exist [
    | true ↦ made tt
    | false ↦ exited ("Couldn't create directory " <> base <> ": " <> e.message)
  ]

  unfoldable pub create_certs_dir : String → W → Attempt (Unit {0}) × W
  unfolding checked_dir
  create_certs_dir base w = let (r, w') = host.mkdir base w in (checked_dir base r, w')

  unfoldable pub load_template : W → Attempt (Template × Template)
  unfolding templates
  load_template w =
      templates (host.parse_files "./nghttpx.tmpl" w) (host.parse_files "./nghttpx-backend.tmpl" w)

  -- what `NewManager` does once the directory is there or is not
  loaded : Attempt (Unit {0}) × W → Attempt Manager × W
  loaded (d, w) =
      (then_try d λ _. then_try (load_template w) λ parts. made (manager_with parts.0 parts.1), w)

  unfoldable pub new_manager : W → Attempt Manager × W
  unfolding loaded
  new_manager w = loaded (create_certs_dir tls_directory w)
