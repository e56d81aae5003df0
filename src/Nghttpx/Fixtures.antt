-- ===== src/Nghttpx/Fixtures.antt =====
-- A machine in memory to run the code of pkg/nghttpx on: its files, the revision that nghttpx
-- reports, and whether it takes signals.
use nghttpx_ingress_lb.Common.{
  ℕ, ◌+◌, String, ◌≡◌, refl, ap, Bool, true, false, Option, none, some, [], ◌∷◌, Try, failed, got,
  if◌then◌else◌, arith,
}
use nghttpx_ingress_lb.Common.Int.{pos, itoa}
use nghttpx_ingress_lb.Common.Text.{◌<>◌, ◌=s◌, eq_iff}
use nghttpx_ingress_lb.Api.{Bytes}
use nghttpx_ingress_lb.Nghttpx.Types.{IngressConfig, TlsCred}
use nghttpx_ingress_lb.Nghttpx.Io.{Io, Os, Response, number}
use nghttpx_ingress_lb.Nghttpx.Files.Laws.{FileLaws}
use nghttpx_ingress_lb.Nghttpx.Reload.{Manager}
use nghttpx_ingress_lb.Nghttpx.Reload.Reloaded.{PollLaw}

pub record Machine : Type 0 where
  pub file : String → Option Bytes
  pub revision : ℕ
  pub takes_signals : Bool

abbrev pub put : String → Option Bytes → Machine → Machine
put path c w = record w { file = λ p. if p =s path then c else w.file p }

abbrev missing : Option Bytes → Option String
missing none = some "no such file"
missing (some c) = none

abbrev contents : Option Bytes → Try Bytes
contents none = failed "no such file"
contents (some c) = got c

abbrev temp_name : String
temp_name = "nghttpx.tmp"

abbrev make_temp : Option Bytes → Io Machine String
make_temp (some c) w = (failed "file exists", w)
make_temp none w = (got temp_name, put temp_name (some []) w)

abbrev move : String → String → Option Bytes → Io Machine (Unit {0})
move t p none w = (failed "no such file", w)
move t p (some c) w = (got tt, put p (some c) (put t none w))

abbrev signalled : Bool → Io Machine (Unit {0})
signalled true w = (got tt, record w { revision = w.revision + 1 })
signalled false w = (failed "no process found", w)

abbrev polled : Try Bool × Machine → Try (Unit {0}) × Machine
polled (failed e, w) = (failed e, w)
polled (got true, w) = (got tt, w)
polled (got false, w) = (failed "timed out waiting for the condition", w)

abbrev answer : ℕ → Response
answer revision = record {
  status_code = 200;
  decoded = got (record {
    status = "Success";
    contents = some (("configRevision", number (itoa (pos revision))) ∷ []);
  });
  body = got [];
}

-- `wait.Poll` gives up after one look.
abbrev pub machine_os : Os Machine
machine_os = record {
  dir_of = λ path. path;
  open_file = λ path w. missing (w.file path);
  read_all = λ path w. contents (w.file path);
  temp_file = λ d w. make_temp (w.file temp_name) w;
  write_bytes = λ path c w. (got tt, put path (some c) w);
  remove = λ path w. (got tt, put path none w);
  rename = λ t p w. move t p (w.file t) w;
  http_get = λ url w. (got (answer w.revision), w);
  new_post = λ url. none;
  do_post = λ url path w. (got (answer w.revision), w);
  killall = λ w. signalled w.takes_signals w;
  poll = λ m w. polled (m w);
}

polled_same : (r : Try Bool × Machine) → (polled r).1 ≡ r.1
polled_same (failed e, w) = refl
polled_same (got true, w) = refl
polled_same (got false, w) = refl

polled-eq-got :
    (r : Try Bool × Machine) {w' : Machine} → polled r ≡ (got tt, w') → r ≡ (got true, w')
polled-eq-got (failed e, w) h = cc
polled-eq-got (got true, w) h = ap (λ s. (got true, s.1)) h
polled-eq-got (got false, w) h = cc

pub machine_os-FileLaws : FileLaws machine_os
machine_os-FileLaws = record {
  temp-fresh = λ d t w w' c e. ground arith;
  temp-Keeps = λ d p c w h. ground (arith, eq_iff p temp_name);
  write-content = λ t c w w' e. ground (arith, eq_iff t t);
  write-Keeps = λ t p b c n w h. ground (arith, eq_iff p t);
  remove-Keeps = λ t p c n w h. ground (arith, eq_iff p t);
  rename-content = λ t p c w w' h e. ground (arith, eq_iff p p);
  rename-Keeps = λ t q p c n m w h. ground (arith, eq_iff p t, eq_iff p q);
  rename-failed = λ t q p m c w w' e h. ground arith;
  http_get-Keeps = λ url p c w h. h;
  do_post-Keeps = λ url q p c w h. h;
  killall-Keeps = λ p c w h. ground arith;
  poll-Keeps = λ p c m k w h. rw (polled_same (m w)) (k w h);
}

pub machine_os-PollLaw : PollLaw machine_os
machine_os-PollLaw m w w' h = (w, polled-eq-got (m w) h)

abbrev pub config_path : String
config_path = "/etc/nghttpx/nghttpx.conf"

abbrev pub backend_path : String
backend_path = "/etc/nghttpx/nghttpx-backend.conf"

-- The main text is the extra configuration's, the backends' text is fixed.
abbrev pub machine_manager : Manager
machine_manager = record {
  config_file = config_path;
  backend_config_file = backend_path;
  template = λ config. got (if config.tls then 1 ∷ [] else 0 ∷ []);
  backend_template = λ config. got (7 ∷ []);
}

-- Before the first configuration: both files are there.
abbrev pub machine_at : Bool → Machine
machine_at takes_signals = record {
  file = λ p.
      if p =s config_path then some (9 ∷ []) else if p =s backend_path then some (9 ∷ []) else none;
  revision = 3;
  takes_signals = takes_signals;
}

abbrev pub cred_of : String → TlsCred
cred_of name = record {
  key = record { path = name <> ".key"; content = 2 ∷ []; checksum = "" };
  cert = record { path = name <> ".crt"; content = 1 ∷ []; checksum = "" };
}

abbrev pub machine_config : IngressConfig
machine_config = record {
  upstreams = [];
  tls = true;
  default_tls_cred = some (cred_of "a");
  sub_tls_cred = cred_of "b" ∷ [];
  workers = "4";
  extra_config = "";
}
