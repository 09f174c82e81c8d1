-- ===== src/Models/Tests.antt =====
-- The cache on three models.
use nebari_llm_serving_pack.Base.{
  ◌≡◌, ◌↔◌, inl, inr, sym, ◌∙◌, some, List, [], ◌∷◌, Text, bytes, lookup, ok, err, All, In, In-cons,
}
use nebari_llm_serving_pack.Samples.{served, provided}
use nebari_llm_serving_pack.Models.{
  Watcher, new_watcher, llm_key, llm_info, passthrough_key, passthrough_info, sync, Reads, sync_all,
  list_models, filter_models_for_user,
}
use nebari_llm_serving_pack.Models.Access.{MayUse, filter_models_for_user_iff}
use nebari_llm_serving_pack.Models.Sync.{
  HasOwnKeys, sync-holds, sync_all-last, made_of, last_read, AreReported,
}

one_own : {A : Type 0} (key : A → Text) (x : A) → HasOwnKeys key (x ∷ [])
one_own {A} key x m n i j e = only i ∙ sym (only j)
  where
    only : {m : A} → In m (x ∷ []) → m ≡ x
    only i = elim (In-cons i) [ inl e ↦ e | inr k ↦ elim k [ ] ]

-- A served and a passthrough model of one name.
sync-holds_example :
    ((sync (ok (served ∷ [])) (ok (provided ∷ [])) new_watcher).0 ≡ ok tt)
    × All
        (λ m.
          lookup (llm_key m) (sync (ok (served ∷ [])) (ok (provided ∷ [])) new_watcher).1.models
          ≡ some (llm_info m))
        (served ∷ [])
    × All
        (λ pm.
          lookup
            (passthrough_key pm)
            (sync (ok (served ∷ [])) (ok (provided ∷ [])) new_watcher).1.models
          ≡ some (passthrough_info pm))
        (provided ∷ [])
sync-holds_example =
    sync-holds (served ∷ []) (provided ∷ []) new_watcher (one_own llm_key served)
      (one_own passthrough_key provided)

abbrev cache : Watcher
cache = (sync (ok (served ∷ [])) (ok (provided ∷ [])) new_watcher).1

filter_models_for_user_iff_example :
    In (llm_info served) (filter_models_for_user cache (bytes "llm" ∷ []))
    ↔ (In (llm_info served) (list_models cache) × MayUse (bytes "llm" ∷ []) (llm_info served))
filter_models_for_user_iff_example =
    filter_models_for_user_iff cache (bytes "llm" ∷ []) (llm_info served)

-- The list of passthrough models cannot be read the second time.
abbrev reads : List Reads
reads = (ok (served ∷ []), ok []) ∷ (ok [], err (bytes "no route")) ∷ []

sync_all-last_example :
    ((sync_all reads cache).1 ≡ made_of cache (last_read reads))
    × AreReported reads (sync_all reads cache).0
sync_all-last_example = sync_all-last reads cache
