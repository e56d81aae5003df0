-- ===== src/Controller/Names.antt =====
-- The names of objects, `namespace/name`: `ParseNSName` and `IsValidService` of pkg/controller/util.go.
-- The lookup of a service is a parameter.
pub mod Laws
use Prim.Native.Char.{Char, code}
use Prim.Native.String.{[] as empty, ◌∷◌ as ◌∷ᶜ◌}
use nghttpx_ingress_lb.Common.{
  ℕ, String, Bool, true, false, List, [], ◌∷◌, ◌==◌, Try, failed, got, if◌then◌else◌,
}
use nghttpx_ingress_lb.Common.Text.{◌<>◌, ◌=s◌}

abbrev pub is_slash : Char → Bool
is_slash c = code c == 47

abbrev pub longer : Char → List String → List String
longer c [] = (c ∷ᶜ empty) ∷ []
longer c (p ∷ ps) = (c ∷ᶜ p) ∷ ps

-- `strings.Split(s, "/")`
unfoldable pub split_slashes : String → List String
split_slashes empty = "" ∷ []
split_slashes (c ∷ᶜ s) =
    let parts = split_slashes s in if is_slash c then "" ∷ parts else longer c parts

two_parts : String → List String → Try (String × String)
two_parts message (ns ∷ name ∷ []) = got (ns, name)
two_parts message _ = failed message

unfoldable pub parse_ns_name : String → Try (String × String)
unfolding two_parts
parse_ns_name input =
    two_parts ("invalid format (namespace/name) found in '" <> input <> "'") (split_slashes input)

-- `_, err := m; return err`
abbrev pub dropped_result : {S : Type 0} → Try S → Try (Unit {0})
dropped_result (failed e) = failed e
dropped_result (got s) = got tt

checked_service : {S : Type 0} → (String → String → Try S) → String → List String → Try (Unit {0})
checked_service get_service message (ns ∷ name ∷ []) = dropped_result (get_service ns name)
checked_service get_service message _ = failed message

-- `get_service` is `clientset.Core().Services(ns).Get(name)`.
unfoldable pub is_valid_service : {S : Type 0} → (String → String → Try S) → String → Try (Unit {0})
unfolding checked_service
is_valid_service get_service name =
    if name =s ""
    then failed "empty string is not a valid service name"
    else checked_service get_service
        ("invalid name format (namespace/name) in service '" <> name <> "'") (split_slashes name)
