-- ===== src/Models/Sync.antt =====
-- What the cache holds after Sync.
use nebari_llm_serving_pack.Base.{
  ◌≡◌, ◌⊎◌, ◌↔◌, inl, inr, refl, ap, sym, ◌∙◌, false, Option, none, some, List, [], ◌∷◌, Bool-cases,
  Text, ◌==◌, eq_iff, bytes, Map, lookup, insert, lookup-insert, Result, ok, err, In, here, there,
  In-cons, All, All-of,
}
use mathlib.Core.Bool.{false≢true}
use nebari_llm_serving_pack.Crd.{LlmModel, PassthroughModel}
use nebari_llm_serving_pack.Models.{
  ModelInfo, Watcher, llm_key, llm_info, passthrough_key, passthrough_info, put_all, sync, Reads,
  sync_all, new_watcher,
}

-- The objects of a list have keys of their own, as the API server keeps them.
abbrev pub HasOwnKeys : {A : Type 0} → (A → Text) → List A → Type 0
HasOwnKeys {A} key ms = (m n : A) → In m ms → In n ms → key m ≡ key n → m ≡ n

module _ {A : Type 0} (key : A → Text) (info : A → ModelInfo) where
  put_all-other :
      (k : Text) (held : Map ModelInfo) (ms : List A)
      → ((m : A) → In m ms → (key m == k) ≡ false)
      → lookup k (put_all key info held ms) ≡ lookup k held
  unfolding put_all
  put_all-other k held [] h = refl
  put_all-other k held (m ∷ ms) h =
      put_all-other k (insert (key m) (info m) held) ms (λ n i. h n (there i))
      ∙ rw lookup-insert (rw (h m here))

  put_all-holds :
      (k : Text) (v : ModelInfo) (m : A) (held : Map ModelInfo) (ms : List A)
      → key m ≡ k
      → ((n : A) → In n ms → key n ≡ k → info n ≡ v)
      → (lookup k held ≡ some v) ⊎ In m ms
      → lookup k (put_all key info held ms) ≡ some v
  unfolding put_all
  put_all-holds k v m held [] e same (inl was) = was
  put_all-holds k v m held [] e same (inr i) = elim i [ ]
  put_all-holds k v m held (x ∷ ms) e same h =
      put_all-holds k v m (insert (key x) (info x) held) ms e (λ n i. same n (there i))
        (elim (Bool-cases (key x == k)) [
          | inl hit ↦ inl (rw lookup-insert (rw hit (cc (same x here ((eq_iff (key x) k).0 hit)))))
          | inr miss ↦ later miss h
        ])
    where
      later :
          (key x == k) ≡ false
          → (lookup k held ≡ some v) ⊎ In m (x ∷ ms)
          → (lookup k (insert (key x) (info x) held) ≡ some v) ⊎ In m ms
      later miss (inl was) = inl (rw lookup-insert (rw miss was))
      later miss (inr i) = elim (In-cons i) [
        | inl here_is ↦ absurd (false≢true (sym miss ∙ (eq_iff (key x) k).1 (cc here_is)))
        | inr j ↦ inr j
      ]

-- The prefixes of the two kinds differ in their first byte.
kinds_differ : (m : LlmModel) (pm : PassthroughModel) → (passthrough_key pm == llm_key m) ≡ false
unfolding passthrough_key llm_key bytes ◌==◌
kinds_differ m pm = refl

-- After both lists were read the cache holds every model of either kind under its own key, also
-- where a served and a passthrough model share namespace and name; keys are unique in each list.
pub sync-holds :
    (ms : List LlmModel) (pms : List PassthroughModel) (w : Watcher)
    → HasOwnKeys llm_key ms
    → HasOwnKeys passthrough_key pms
    → ((sync (ok ms) (ok pms) w).0 ≡ ok tt)
      × All (λ m. lookup (llm_key m) (sync (ok ms) (ok pms) w).1.models ≡ some (llm_info m)) ms
      × All
          (λ pm.
            lookup (passthrough_key pm) (sync (ok ms) (ok pms) w).1.models
            ≡ some (passthrough_info pm))
          pms
unfolding sync
sync-holds ms pms w own own_pms = (
  refl,
  All-of _ ms (λ m i.
      put_all-other passthrough_key passthrough_info (llm_key m) _ pms (λ pm _. kinds_differ m pm)
      ∙ put_all-holds llm_key llm_info (llm_key m) (llm_info m) m [] ms refl
          (λ n j e. ap llm_info (own n m j i e)) (inr i)),
  All-of _ pms (λ pm i.
      put_all-holds passthrough_key passthrough_info (passthrough_key pm) (passthrough_info pm) pm _
        pms refl (λ n j e. ap passthrough_info (own_pms n pm j i e)) (inr i)),
)

both_read :
    Result (List LlmModel)
    → Result (List PassthroughModel)
    → Option (List LlmModel × List PassthroughModel)
both_read (ok ms) (ok pms) = some (ms, pms)
both_read (ok ms) (err e) = none
both_read (err e) pt_listed = none

or_earlier : {A : Type 0} → Option A → Option A → Option A
or_earlier (some a) earlier = some a
or_earlier none earlier = earlier

-- The two lists of the last Sync that could read both, if there was one.
pub last_read : List Reads → Option (List LlmModel × List PassthroughModel)
last_read [] = none
last_read ((listed, pt_listed) ∷ later) = or_earlier (last_read later) (both_read listed pt_listed)

-- The cache that these lists make by themselves.
abbrev pub made_of : Watcher → Option (List LlmModel × List PassthroughModel) → Watcher
made_of w none = w
made_of w (some (ms, pms)) = (sync (ok ms) (ok pms) new_watcher).1

abbrev pub IsRead : {A : Type 0} → Result A → Type 0
IsRead {A} r = (a : A) × (r ≡ ok a)

-- One result for each Sync: no error exactly where both lists were read.
abbrev pub AreReported : List Reads → List (Result (Unit {0})) → Type 0
AreReported [] [] = Unit
AreReported [] (_ ∷ _) = ⊥
AreReported (_ ∷ _) [] = ⊥
AreReported ((listed, pt_listed) ∷ later) (r ∷ rs) =
    ((r ≡ ok tt) ↔ (IsRead listed × IsRead pt_listed)) × AreReported later rs

made_of-both :
    (listed : Result (List LlmModel)) (pt_listed : Result (List PassthroughModel)) (w : Watcher)
    → (sync listed pt_listed w).1 ≡ made_of w (both_read listed pt_listed)
unfolding sync both_read
made_of-both (ok ms) (ok pms) w = refl
made_of-both (ok ms) (err e) w = refl
made_of-both (err e) pt_listed w = refl

made_of-or_earlier :
    (later earlier : Option (List LlmModel × List PassthroughModel)) (w : Watcher)
    → made_of (made_of w earlier) later ≡ made_of w (or_earlier later earlier)
unfolding or_earlier
made_of-or_earlier none earlier w = refl
made_of-or_earlier (some lists) earlier w = refl

sync-reported :
    (listed : Result (List LlmModel)) (pt_listed : Result (List PassthroughModel)) (w : Watcher)
    → ((sync listed pt_listed w).0 ≡ ok tt) ↔ (IsRead listed × IsRead pt_listed)
unfolding sync
sync-reported (ok ms) (ok pms) w = ((λ h. ((ms, refl), (pms, refl))), (λ h. refl))
sync-reported (ok ms) (err e) w = ((λ h. cc h), (λ h. cc (h.1.1)))
sync-reported (err e) pt_listed w = ((λ h. cc h), (λ h. cc (h.0.1)))

-- After any Syncs one after the other the cache is what the last of them that could read both lists
-- makes of these lists alone, whatever was cached before and however many failed later, or it is as
-- it was where none could; and each Sync returns an error exactly when it could not read a list.
pub sync_all-last :
    (reads : List Reads) (w : Watcher)
    → ((sync_all reads w).1 ≡ made_of w (last_read reads)) × AreReported reads (sync_all reads w).0
unfolding sync_all last_read
sync_all-last [] w = (refl, tt)
sync_all-last ((listed, pt_listed) ∷ later) w =
    let (cached, reported) = sync_all-last later (sync listed pt_listed w).1 in
    (
      cached
          ∙ ap (λ v. made_of v (last_read later)) (made_of-both listed pt_listed w)
          ∙ made_of-or_earlier (last_read later) (both_read listed pt_listed) w,
      (sync-reported listed pt_listed w, reported),
    )
