-- ===== src/Gateway/Tests.antt =====
-- A Gateway with the listener of another program and an old one of ours.
use nebari_llm_serving_pack.Base.{◌≡◌, Bool, List, [], ◌∷◌, bytes, some, ok}
use nebari_llm_serving_pack.Gateway.{
  Listener, Item, listener, no_object, build_https_listener, merge_https_listener,
}
use nebari_llm_serving_pack.Gateway.Merge.{IsMerged, merge_https_listener-IsMerged}

abbrev argocd : Listener
argocd = record {
  name = bytes "argocd";
  protocol = bytes "HTTPS";
  port = bytes "443";
  hostname = bytes "argocd.x";
  tls_mode = bytes "Terminate";
  certificate_refs = [];
  allowed_from = bytes "Same";
  other_fields = [];
}

abbrev old : Listener
old = record argocd { name = bytes "llm-https"; hostname = bytes "old.x" }

abbrev items : List Item
items = listener argocd ∷ no_object (bytes "x") ∷ listener old ∷ []

merge_https_listener-IsMerged_example :
    (r : Bool × List Item) × (merge_https_listener
        (bytes "llm-https")
        (bytes "llm.x")
        (bytes "tls")
        (bytes "llm")
        (ok (some items))
      ≡ ok r)
    × IsMerged
        (bytes "llm-https")
        (build_https_listener (bytes "llm-https") (bytes "llm.x") (bytes "tls") (bytes "llm"))
        items
        r
merge_https_listener-IsMerged_example =
    merge_https_listener-IsMerged (bytes "llm-https") (bytes "llm.x") (bytes "tls") (bytes "llm")
      items
