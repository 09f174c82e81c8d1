-- ===== src/Network/Peers.antt =====
-- Which peers the policy lets in.
use nebari_llm_serving_pack.Base.{◌≡◌, ◌≢◌, ◌⊎◌, [], Text}
use nebari_llm_serving_pack.Network.{IngressRule, gateway_rule, epp_rule, monitoring_rule}

-- The rules for whom the policy is meant.
abbrev pub IsMeant : Text → Text → IngressRule → Type 0
IsMeant external internal r =
    ((ns : Text) × ((ns ≡ external) ⊎ (ns ≡ internal)) × (ns ≢ []) × (r ≡ gateway_rule ns))
    ⊎ ((r ≡ epp_rule) ⊎ (r ≡ monitoring_rule))
