-- ===== src/Informer/Reconcile.antt =====
-- A relist brings the cache to the list that the server answered with.
use podwatcher.Prelude.{
  String, ◌≡◌, ◌≢◌, refl, sym, ap, ◌∙◌, Option, none, some, List, [], ◌∷◌, ◌==◌, arith, eq_iff,
  eq_refl, if◌then◌else◌, is_some, inl, inr, Bool-cases, Option-cases, Any, some-ne-none,
}
use podwatcher.Dict.{Dict, get, put, values, IsDict}
use podwatcher.Dict.Laws.{put-IsDict}
use podwatcher.Kube.{Time, Pod}
use podwatcher.Informer.Cache.{PodCache, IsPodCache, index_pods}
use podwatcher.Informer.Manager.{
  Manager, rv_at_least, discover, refresh, forget, merge_added, merge_listed, forget_missing,
  reconcile,
}

-- what a cache has of a key after a pod of that key is listed
abbrev pub newest : Pod → Option Pod → Option Pod
newest pod none = some pod
newest pod (some old) =
    if rv_at_least old.resource_version pod.resource_version then some old else some pod

abbrev pub merged : Option Pod → Option Pod → Option Pod
merged none old = old
merged (some pod) old = newest pod old

-- the cache that a relist is to leave behind: nothing that is not listed, and of the listed pods the
-- newest that is known
abbrev pub relisted : Option Pod → Option Pod → Option Pod
relisted none old = none
relisted (some pod) old = newest pod old

-- every pod stands under its own key
abbrev pub IsListed : (Pod → String) → Dict Pod → Type 0
IsListed key_of [] = Unit
IsListed key_of ((k, pod) ∷ m) = (key_of pod ≡ k) × IsListed key_of m

put-IsListed :
    (key_of : Pod → String) (pod : Pod) (m : Dict Pod)
    → IsListed key_of m
    → IsListed key_of (put (key_of pod) pod m)
unfolding put
put-IsListed key_of pod [] h = (refl, tt)
put-IsListed key_of pod ((k, p) ∷ m) (own, h) = elim (Bool-cases (k == key_of pod)) [
  | inl same ↦ rw same (refl, h)
  | inr other ↦ rw other (own, put-IsListed key_of pod m h)
]

index_pods_valid :
    (key_of : Pod → String) (pods : List Pod) (listed : Dict Pod)
    → IsDict listed
    → IsListed key_of listed
    → IsDict (index_pods key_of pods listed) × IsListed key_of (index_pods key_of pods listed)
unfolding index_pods
index_pods_valid key_of [] listed d h = (d, h)
index_pods_valid key_of (pod ∷ pods) listed d h =
    index_pods_valid key_of pods (put (key_of pod) pod listed)
      (put-IsDict (key_of pod) pod listed d) (put-IsListed key_of pod listed h)

module _ {C S : Type 0} (cache : PodCache C) (laws : IsPodCache cache) where
  merge_added-by_key :
      (k : String) (old : Option Pod) (pod : Pod) (now stamp : Time) (m : Manager C S)
      → old ≡ cache.by_key (cache.key_of pod) m.store
      → cache.by_key k (merge_added cache old pod now stamp m).store
        ≡ (if cache.key_of pod == k then newest pod old else cache.by_key k m.store)
  unfolding merge_added discover refresh
  merge_added-by_key k none pod now stamp m h = laws.by_key_add k pod m.store
  merge_added-by_key k (some old) pod now stamp m h =
      elim (Bool-cases (rv_at_least old.resource_version pod.resource_version)) [
        | inl stale ↦ ground (arith, stale, h, eq_iff (cache.key_of pod) k)
        | inr fresh ↦ rw fresh (laws.by_key_update k pod m.store)
      ]

  merge_listed-by_key :
      (k : String) (tick : Pod → Time × Time) (listed : Dict Pod) (m : Manager C S)
      → IsDict listed
      → IsListed cache.key_of listed
      → cache.by_key k (merge_listed cache tick (values listed) m).store
        ≡ merged (get k listed) (cache.by_key k m.store)
  unfolding merge_listed get
  merge_listed-by_key k tick [] m d h = refl
  merge_listed-by_key k tick ((j, pod) ∷ rest) m (fresh, d) (own, h) =
      let old = cache.lookup pod m.store in
      let next = merge_added cache old pod (tick pod).0 (tick pod).1 m in
      let step =
        merge_added-by_key k old pod (tick pod).0 (tick pod).1 m (laws.lookup_key pod m.store) in
      let found = laws.lookup_key pod m.store in
      let tail = merge_listed-by_key k tick rest next d h in
      elim (Bool-cases (j == k)) [
        | inl same ↦
            let e : j ≡ k = ground (arith, eq_iff j k) in
            let unlisted : get k rest ≡ none = cc (e, fresh) in
            let at : cache.key_of pod ≡ k = own ∙ e in
            tail
            ∙ ap (λ listed. merged listed (cache.by_key k next.store)) unlisted
            ∙ step
            ∙ rw (at, eq_refl k, same)
                (ap (newest pod) (found ∙ ap (λ key. cache.by_key key m.store) at))
        | inr other ↦
            let unchanged : cache.by_key k next.store ≡ cache.by_key k m.store =
              step ∙ ground (arith, own, other) in
            tail ∙ ap (merged (get k rest)) unchanged ∙ rw other refl
      ]

  -- what becomes of one cached pod
  abbrev forget_unlisted : (Pod → Time × Time) → Dict Pod → Pod → Manager C S → Manager C S
  forget_unlisted tick listed old m =
      if is_some (get (cache.key_of old) listed)
      then m
      else forget cache old (tick old).0 (tick old).1 m

  forget_unlisted-by_key :
      (k : String) (tick : Pod → Time × Time) (listed : Dict Pod) (old : Pod) (m : Manager C S)
      → (get k listed ≢ none
          → cache.by_key k (forget_unlisted tick listed old m).store ≡ cache.by_key k m.store)
        × (cache.by_key k m.store ≡ none
            → cache.by_key k (forget_unlisted tick listed old m).store ≡ none)
        × (get k listed ≡ none
            → cache.key_of old ≡ k
            → cache.by_key k (forget_unlisted tick listed old m).store ≡ none)
  unfolding forget
  forget_unlisted-by_key k tick listed old m =
      let law = laws.by_key_delete k old m.store in
      elim (Option-cases (get (cache.key_of old) listed)) [
        | inl gone ↦ rw gone (
          λ known. ground (arith, law, gone, eq_iff (cache.key_of old) k),
          λ free. ground (arith, law, free),
          λ missing same. ground (arith, law, eq_iff (cache.key_of old) k),
        )
        | inr (pod, present) ↦ rw present (
          λ known. refl,
          λ free. free,
          λ missing same.
              absurd (some-ne-none (sym present ∙ ap (λ key. get key listed) same ∙ missing)),
        )
      ]

  forget_missing-by_key :
      (k : String) (tick : Pod → Time × Time) (listed : Dict Pod) (olds : List Pod)
      (m : Manager C S)
      → (get k listed ≢ none
          → cache.by_key k (forget_missing cache tick listed olds m).store ≡ cache.by_key k m.store)
        × (get k listed ≡ none
            → cache.by_key k m.store ≡ none
            → cache.by_key k (forget_missing cache tick listed olds m).store ≡ none)
        × (get k listed ≡ none
            → Any (λ old. cache.key_of old ≡ k) olds
            → cache.by_key k (forget_missing cache tick listed olds m).store ≡ none)
  unfolding forget_missing forget
  forget_missing-by_key k tick listed [] m = (λ h. refl, λ h e. e, λ h found. absurd found)
  forget_missing-by_key k tick listed (old ∷ olds) m =
      let next = forget_unlisted tick listed old m in
      let (kept_one, free_one, found_one) = forget_unlisted-by_key k tick listed old m in
      let (kept, free, found) = forget_missing-by_key k tick listed olds next in
      (
        λ known. kept known ∙ kept_one known,
        λ missing none_there. free missing (free_one none_there),
        λ missing some_there. elim some_there [
          | inl same ↦ free missing (found_one missing same)
          | inr later ↦ found missing later
        ],
      )

  pub reconcile-by_key :
      (tick : Pod → Time × Time) (pods : List Pod) (m : Manager C S) (k : String)
      → cache.by_key k (reconcile cache tick pods m).store
        ≡ relisted (get k (index_pods cache.key_of pods [])) (cache.by_key k m.store)
  unfolding reconcile
  reconcile-by_key tick pods m k =
      let listed = index_pods cache.key_of pods [] in
      let after = merge_listed cache tick (values listed) m in
      let (d, h) = index_pods_valid cache.key_of pods [] tt tt in
      let (kept, free, found) =
        forget_missing-by_key k tick listed (cache.list after.store) after in
      let step = merge_listed-by_key k tick listed m d h in
      elim (Option-cases (get k listed)) [
        | inl missing ↦ elim (Option-cases (cache.by_key k after.store)) [
          | inl none_there ↦ rw missing (free missing none_there)
          | inr (pod, there) ↦ rw missing (found missing (laws.list_all k pod after.store there))
        ]
        | inr (pod, present) ↦
            kept (λ missing. some-ne-none (sym present ∙ missing)) ∙ step ∙ rw present refl
      ]
