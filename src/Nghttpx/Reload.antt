-- ===== src/Nghttpx/Reload.antt =====
-- `Manager` of pkg/nghttpx/main.go, with `generateCfg` and `checkAndWriteCfg` of template.go, the writing
-- of credentials of tls.go, and the reloading of command.go. Executing a template is a parameter.
pub mod Laws
pub mod Retry
pub mod Stored
pub mod Reloaded
use nghttpx_ingress_lb.Common.{
  ℕ, String, Bool, true, false, Option, none, some, List, [], ◌∷◌, ◌==◌, not, Try, failed, got,
  if◌then◌else◌,
}
use nghttpx_ingress_lb.Common.Int.{pos, itoa}
use nghttpx_ingress_lb.Common.Text.{◌<>◌, ◌=s◌}
use nghttpx_ingress_lb.Api.{Bytes}
use nghttpx_ingress_lb.Nghttpx.Types.{TlsCred, IngressConfig}
use nghttpx_ingress_lb.Nghttpx.Io.{
  Io, Os, Response, ApiResult, Json, number, other, ◌>>=◌, pure, lift, reads, wrap, when,
}
use nghttpx_ingress_lb.Nghttpx.Files.{needs_reload, write_file}

pub record Manager : Type 0 where
  pub config_file : String
  pub backend_config_file : String
  -- `Execute` of the main template and of the backends' one
  pub template : IngressConfig → Try Bytes
  pub backend_template : IngressConfig → Try Bytes

pub data Change : Type 0 where
  config_not_changed main_config_changed backend_config_changed : Change

abbrev pub configrevision_uri : String
configrevision_uri = "http://127.0.0.1:3001/api/v1beta1/configrevision"

abbrev pub backendconfig_uri : String
backendconfig_uri = "http://127.0.0.1:3001/api/v1beta1/backendconfig"

-- `r.Data[key]`; nil where the key is missing
json_at : String → List (String × Json) → Option Json
json_at key [] = none
json_at key ((k, v) ∷ m) = if k =s key then some v else json_at key m

revision_of : Option Json → Try String
revision_of (some (number text)) = got text
revision_of (some other) =
    failed "nghttpx configuration API result has non json.Number configRevision"
revision_of none = failed "nghttpx configuration API result has non json.Number configRevision"

revision_in : Option (List (String × Json)) → Try String
unfolding json_at revision_of
revision_in none = failed "nghttpx configuration API result has nil Data field"
revision_in (some m) = revision_of (json_at "configRevision" m)

revision_decoded : Try ApiResult → Try String
unfolding revision_in
revision_decoded (failed e) = failed ("Could not parse nghttpx configuration API result: " <> e)
revision_decoded (got r) = revision_in r.contents

pub revision_from : Response → Try String
unfolding revision_decoded
revision_from resp =
    if resp.status_code == 200
    then revision_decoded resp.decoded
    else failed (
        "configrevision API endpoint returned unsuccessful status code "
        <> itoa (pos resp.status_code))

-- What the answer to a backend request says.
pub replaced : Response → Try (Unit {0})
replaced resp =
    if resp.status_code == 200
    then elim resp.body [
      | got _ ↦ got tt
      | failed e ↦ failed ("Error while reading API response body: " <> e)
    ]
    else failed (
        "backendconfig API endpoint returned unsuccessful status code "
        <> itoa (pos resp.status_code))

error_of : String → Option String → Try (Unit {0})
error_of message none = got tt
error_of message (some e) = failed (message <> e)

unfoldable pub change_of : Bool → Bool → Change
change_of main_changed backend_changed =
    if main_changed
    then main_config_changed
    else if backend_changed
    then backend_config_changed
    else config_not_changed

pub generated : Try Bytes → Try Bytes → Try (Bytes × Bytes)
generated (failed e) b = failed e
generated (got m) (failed e) = failed e
generated (got m) (got b) = got (m, b)

unfoldable pub generate_cfg : Manager → IngressConfig → Try (Bytes × Bytes)
unfolding generated
generate_cfg ngx config = generated (ngx.template config) (ngx.backend_template config)

module _ {W : Type 0} (os : Os W) where
  -- the function `writeTLSKeyCert`
  unfoldable pub write_cred : TlsCred → Io W (Unit {0})
  write_cred c = do
    _ ←
        wrap (λ e. "failed to write TLS private key: " <> e)
          (write_file os c.key.path c.key.content)
    wrap (λ e. "failed to write TLS certificate: " <> e) (write_file os c.cert.path c.cert.content)

  pub write_creds : List TlsCred → Io W (Unit {0})
  unfolding write_cred
  write_creds [] = pure tt
  write_creds (c ∷ cs) = write_cred c >>= λ _. write_creds cs

  write_default : Option TlsCred → Io W (Unit {0})
  unfolding write_cred
  write_default none = pure tt
  write_default (some c) = write_cred c

  -- the method `writeTLSKeyCert`
  unfoldable pub write_tls_key_cert : IngressConfig → Io W (Unit {0})
  unfolding write_creds write_default
  write_tls_key_cert config =
      write_default config.default_tls_cred >>= λ _. write_creds config.sub_tls_cred

  unfoldable pub get_nghttpx_config_revision : Io W String
  unfolding revision_from
  get_nghttpx_config_revision =
      wrap (λ e. "Could not get nghttpx configRevision: " <> e) (os.http_get configrevision_uri)
      >>= λ resp. lift (revision_from resp)

  -- The condition that is polled: whether the revision is another one.
  revision_changes : String → Io W Bool
  unfolding get_nghttpx_config_revision
  revision_changes old = get_nghttpx_config_revision >>= λ new. pure (not (new =s old))

  unfoldable pub wait_until_config_revision_changes : String → Io W (Unit {0})
  unfolding revision_changes
  wait_until_config_revision_changes old =
      wrap (λ e. "Could not get new nghttpx configRevision: " <> e) (os.poll (revision_changes old))

  made_request : Io W (Unit {0})
  unfolding error_of
  made_request = lift (error_of "Could not create API request: " (os.new_post backendconfig_uri))

  module _ (ngx : Manager) where
    unfoldable pub check_and_write_cfg : Bytes → Bytes → Io W Change
    unfolding change_of
    check_and_write_cfg main_config backend_config = do
      main_changed ← needs_reload os ngx.config_file main_config
      backend_changed ← needs_reload os ngx.backend_config_file backend_config
      _ ← when main_changed (write_file os ngx.config_file main_config)
      _ ← when backend_changed (write_file os ngx.backend_config_file backend_config)
      pure (change_of main_changed backend_changed)

    -- opening the file of the backends, making the request, and sending it
    opened_backend : Io W (Unit {0})
    unfolding error_of
    opened_backend = reads (λ w.
        error_of ("Could not open backend configuration file " <> ngx.backend_config_file <> ": ")
          (os.open_file ngx.backend_config_file w))

    posted : Io W Response
    posted =
        wrap (λ e. "Could not issue API request: " <> e)
          (os.do_post backendconfig_uri ngx.backend_config_file)

    unfoldable pub issue_backend_replace_request : Io W (Unit {0})
    unfolding replaced opened_backend made_request posted
    issue_backend_replace_request = do
      _ ← opened_backend
      _ ← made_request
      resp ← posted
      lift (replaced resp)

    -- what follows a change of the configuration files
    unfoldable pub apply_change : IngressConfig → Change → Io W Bool
    apply_change config config_not_changed = pure false
    apply_change config main_config_changed = do
      old ← get_nghttpx_config_revision
      _ ← write_tls_key_cert config
      _ ← wrap (λ e. "failed to execute killall [-HUP nghttpx]: " <> e) os.killall
      _ ← wait_until_config_revision_changes old
      pure true
    apply_change config backend_config_changed = do
      _ ← wrap (λ e. "failed to issue backend replace request: " <> e) issue_backend_replace_request
      pure true

    unfoldable pub check_and_reload : IngressConfig → Io W Bool
    unfolding generate_cfg apply_change
    check_and_reload config = do
      texts ← lift (generate_cfg ngx config)
      changed ←
          wrap (λ e. "failed to write new nghttpx configuration. Avoiding reload: " <> e)
            (check_and_write_cfg texts.0 texts.1)
      apply_change config changed
