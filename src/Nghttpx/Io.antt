-- ===== src/Nghttpx/Io.antt =====
-- What a Go function does that works on files, processes and connections: from the state of the
-- world `W` it fails or returns, and leaves another state. The operations of the packages os,
-- io/ioutil, os/exec, net/http and k8s.io/kubernetes/pkg/util/wait are a parameter.
pub mod Laws
use nghttpx_ingress_lb.Common.{
  ℕ, String, Bool, true, false, Option, none, some, List, Try, failed, got, if◌then◌else◌,
}
use nghttpx_ingress_lb.Api.{Bytes}

abbrev pub Io : Type 0 → Type 0 → Type 0
Io W A = W → Try A × W

abbrev pub after : {W A B : Type 0} → Try A × W → (A → Io W B) → Try B × W
after (failed e, w) f = (failed e, w)
after (got a, w) f = f a w

infixl 5 ◌>>=◌
abbrev pub ◌>>=◌ : {W A B : Type 0} → Io W A → (A → Io W B) → Io W B
m >>= f = λ w. after (m w) f

abbrev pub pure : {W A : Type 0} → A → Io W A
pure a = λ w. (got a, w)

abbrev pub lift : {W A : Type 0} → Try A → Io W A
lift t = λ w. (t, w)

-- A result that only looks at the world.
abbrev pub reads : {W A : Type 0} → (W → Try A) → Io W A
reads f = λ w. (f w, w)

abbrev pub wrapped : {W A : Type 0} → (String → String) → Try A × W → Try A × W
wrapped f (failed e, w) = (failed (f e), w)
wrapped f (got a, w) = (got a, w)

-- `if err != nil { return fmt.Errorf(prefix + …, err) }`
abbrev pub wrap : {W A : Type 0} → (String → String) → Io W A → Io W A
wrap f m = λ w. wrapped f (m w)

-- `if b { if err := m; err != nil { return err } }`
abbrev pub when : {W : Type 0} → Bool → Io W (Unit {0}) → Io W (Unit {0})
when b m = if b then m else pure tt

-- A value that `encoding/json` decodes into an `interface{}`, with `UseNumber`.
pub data Json : Type 0 where
  number : String → Json
  other : Json

-- `contents` is the field `Data`, `none` where it is nil.
pub record ApiResult : Type 0 where
  pub status : String
  pub contents : Option (List (String × Json))

pub record Response : Type 0 where
  pub status_code : ℕ
  -- `json.Decoder.Decode` of the body
  pub decoded : Try ApiResult
  -- `ioutil.ReadAll` of the body
  pub body : Try Bytes

-- `open_file` gives the error of `os.Open`, and `read_all` reads the file that it opened. `do_post`
-- sends a request whose body is the open file. `poll` is `wait.Poll` at the source's two durations.
pub record Os (W : Type 0) : Type 0 where
  pub dir_of : String → String
  pub open_file : String → W → Option String
  pub read_all : String → W → Try Bytes
  pub temp_file : String → Io W String
  pub write_bytes : String → Bytes → Io W (Unit {0})
  pub remove : String → Io W (Unit {0})
  pub rename : String → String → Io W (Unit {0})
  pub http_get : String → Io W Response
  pub new_post : String → Option String
  pub do_post : String → String → Io W Response
  pub killall : Io W (Unit {0})
  pub poll : Io W Bool → Io W (Unit {0})
