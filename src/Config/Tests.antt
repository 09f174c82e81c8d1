-- ===== src/Config/Tests.antt =====
-- An environment with one variable.
use nebari_llm_serving_pack.Base.{◌≡◌, ◌⊎◌, [], ◌++◌, if◌then◌else◌, ◌==◌, bytes, ok, err}
use nebari_llm_serving_pack.Config.{
  Environment, required_keys, missing, joined, config_from, load_from_env,
}
use nebari_llm_serving_pack.Config.Required.{AllSet, IsReported, load_from_env-reports}

abbrev env : Environment
env key = if key == bytes "LLM_BASE_DOMAIN" then bytes "example.org" else []

load_from_env-reports_example :
    ((load_from_env env ≡ ok (config_from env)) × AllSet env)
    ⊎ ((load_from_env env
          ≡ err (
              bytes "missing required environment variables: "
              ++ joined (missing env required_keys)))
        × IsReported env (missing env required_keys))
load_from_env-reports_example = load_from_env-reports env
