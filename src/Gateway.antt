-- ===== src/Gateway.antt =====
-- The listeners of the shared Gateways: MergeHTTPSListener in
-- operator/internal/controller/reconcilers/clustertls.go. A field of a listener that the code
-- compares is held as `%v` prints it, and a listener's name is a string; the rest is `other_fields`.
pub mod Merge
mod Tests
use nebari_llm_serving_pack.Base.{
  Bool, true, false, ◌&&◌, Option, none, some, List, [], ◌∷◌, ◌++◌, if◌then◌else◌, Text, ◌==◌,
  bytes, Map, Result, ok, err,
}

pub record CertificateRef : Type 0 where
  pub kind : Text
  pub name : Text
  pub namespace : Text

pub record Listener : Type 0 where
  pub name : Text
  pub protocol : Text
  pub port : Text
  pub hostname : Text
  pub tls_mode : Text
  pub certificate_refs : List CertificateRef
  pub allowed_from : Text
  pub other_fields : Map Text

-- An item of spec.listeners: the code skips what is no object.
pub data Item : Type 0 where
  listener : Listener → Item
  no_object : Text → Item

unfoldable pub build_https_listener : Text → Text → Text → Text → Listener
build_https_listener name hostname secret_name secret_namespace = record {
  name = name;
  protocol = bytes "HTTPS";
  port = bytes "443";
  hostname = hostname;
  tls_mode = bytes "Terminate";
  certificate_refs =
      record { kind = bytes "Secret"; name = secret_name; namespace = secret_namespace } ∷ [];
  allowed_from = bytes "All";
  other_fields = [];
}

unfoldable pub refs_equal : List CertificateRef → List CertificateRef → Bool
refs_equal [] [] = true
refs_equal [] (b ∷ rest) = false
refs_equal (a ∷ rest) [] = false
refs_equal (a ∷ rest) (b ∷ others) =
    (a.kind == b.kind && (a.name == b.name && a.namespace == b.namespace)) && refs_equal rest others

unfoldable pub listeners_equal : Listener → Listener → Bool
listeners_equal a b =
    (a.name == b.name
      && (a.protocol == b.protocol && (a.port == b.port && a.hostname == b.hostname)))
    && (a.tls_mode == b.tls_mode
        && (refs_equal a.certificate_refs b.certificate_refs && a.allowed_from == b.allowed_from))

-- Whether the Gateway was modified, and its listeners.
unfoldable pub keep_item : Item → Bool × List Item → Bool × List Item
keep_item item (modified, items) = (modified, item ∷ items)

-- The scan for the first listener of the name, from `listener_name` and the desired listener.
unfoldable pub merge_listeners : Text → Listener → List Item → Bool × List Item
merge_listeners listener_name desired [] = (true, listener desired ∷ [])
merge_listeners listener_name desired (no_object s ∷ items) =
    keep_item (no_object s) (merge_listeners listener_name desired items)
merge_listeners listener_name desired (listener l ∷ items) =
    let later = merge_listeners listener_name desired items in
    if l.name == listener_name
    then (if listeners_equal l desired
        then (false, listener l ∷ items)
        else (true, listener desired ∷ items))
    else keep_item (listener l) later

-- The argument is what NestedSlice reads: the listeners, if the field is there.
unfoldable pub merge_https_listener :
    Text → Text → Text → Text → Result (Option (List Item)) → Result (Bool × List Item)
merge_https_listener listener_name hostname secret_name secret_namespace (err e) =
    err (bytes "reading spec.listeners: " ++ e)
merge_https_listener listener_name hostname secret_name secret_namespace (ok none) = ok (
    merge_listeners listener_name
      (build_https_listener listener_name hostname secret_name secret_namespace) [])
merge_https_listener listener_name hostname secret_name secret_namespace (ok (some items)) = ok (
    merge_listeners listener_name
      (build_https_listener listener_name hostname secret_name secret_namespace) items)
