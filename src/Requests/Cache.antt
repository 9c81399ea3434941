-- ===== src/Requests/Cache.antt =====
-- The cache of parent responses that `_load_parent_response` keeps.
use langchain_azure.Base.{
  Bool, true, false, none, some, [], ◌∷◌, String, ◌≡◌, refl, sym, ap, ◌∙◌, subst, if◌then◌else◌,
  ◌==◌, ◌&&◌, nat_eq, string_eq, codes_eq, option_eq, eq_sound, All, Bool-cases, Option-cases, inl,
  inr,
}
use langchain_azure.Base.Words.{Text}
use langchain_azure.Checkpoints.Config.{Setting}
use langchain_azure.Requests.Threads.{scope_thread_id}
use langchain_azure.Requests.Parents.{
  ParentResponse, ParentKey, same_key, Parents, find_parent, Fetch, gives, misses, fails, Provider,
  Answer, ok, take_fetched, parent_key, load_parent_response,
}

-- What is said of every cached parent under its key, with the parent's own id.
abbrev pub AreCached : (ParentKey → ParentResponse → Type 0) → Parents → Type 0
AreCached P parents = All (λ p. P p.0 p.1 × (p.1.id ≡ some p.0.parent_id)) parents

abbrev pub IsOf :
    (ParentKey → ParentResponse → Type 0) → ParentKey → Parents × Answer ParentResponse → Type 0
IsOf P k (parents, answer) =
    AreCached P parents × ((r : ParentResponse) → answer ≡ ok r → P k r × (r.id ≡ some k.parent_id))

ok_injective : {A : Type 0} (a b : A) → ok a ≡ ok b → a ≡ b
ok_injective a b h = cc

some_injective : {A : Type 0} (a b : A) → some a ≡ some b → a ≡ b
some_injective a b h = cc

and_split : (a b : Bool) → (a && b) ≡ true → (a ≡ true) × (b ≡ true)
and_split true b h = (refl, h)
and_split false b h = absurd (cc)

same_key_sound : (k j : ParentKey) → same_key k j ≡ true → j ≡ k
same_key_sound k j h =
    let (provider, rest) =
      and_split (k.provider == j.provider)
        (k.namespace == j.namespace && k.parent_id == j.parent_id) h in
    let (namespace, id) =
      and_split (k.namespace == j.namespace) (k.parent_id == j.parent_id) rest in
    sym (
      ap (λ n. record { provider = n; namespace = k.namespace; parent_id = k.parent_id })
        (eq_sound k.provider j.provider provider)
      ∙ ap (λ n. record { provider = j.provider; namespace = n; parent_id = k.parent_id })
          (eq_sound k.namespace j.namespace namespace)
      ∙ ap (λ n. record { provider = j.provider; namespace = j.namespace; parent_id = n })
          (eq_sound k.parent_id j.parent_id id))

module _ (P : ParentKey → ParentResponse → Type 0) where
  find_parent-AreCached :
      (parents : Parents) (k : ParentKey) (r : ParentResponse)
      → AreCached P parents
      → find_parent parents k ≡ some r
      → P k r × (r.id ≡ some k.parent_id)
  unfolding find_parent
  find_parent-AreCached [] k r cached h = absurd (cc)
  find_parent-AreCached ((j, q) ∷ parents) k r (here, cached) h = elim (Bool-cases (same_key k j)) [
    | inl e ↦
        (let same =
            some_injective q r
              (subst (λ b. (if b then some q else find_parent parents k) ≡ some r) e h) in
          subst (λ x. P k x × (x.id ≡ some k.parent_id)) same
            (subst (λ i. P i q × (q.id ≡ some i.parent_id)) (same_key_sound k j e) here))
    | inr e ↦
        find_parent-AreCached parents k r cached
          (subst (λ b. (if b then some q else find_parent parents k) ≡ some r) e h)
  ]

  take_fetched-IsOf :
      (parents : Parents) (k : ParentKey) (fetch : Fetch)
      → AreCached P parents
      → ((r : ParentResponse) → fetch ≡ gives (some r) → P k r)
      → IsOf P k (take_fetched parents k fetch)
  take_fetched-IsOf parents k misses cached given = (cached, λ r h. absurd (cc))
  take_fetched-IsOf parents k fails cached given = (cached, λ r h. absurd (cc))
  take_fetched-IsOf parents k (gives none) cached given = (cached, λ r h. absurd (cc))
  take_fetched-IsOf parents k (gives (some q)) cached given =
      elim (Bool-cases (q.id == some k.parent_id)) [
        | inl e ↦
            (let here : P k q × (q.id ≡ some k.parent_id) =
                (given q refl, eq_sound q.id (some k.parent_id) e) in
              rw e (
                (here, cached),
                λ r h. subst (λ x. P k x × (x.id ≡ some k.parent_id)) (ok_injective q r h) here,
              ))
        | inr e ↦ rw e (cached, λ r h. absurd (cc))
      ]

-- Let anything be said of parents under a provider, a user's namespace and an id: that it holds of what
-- the provider gives now for the caller's namespace and the id that was asked for, and of every
-- cached parent under its key. Then it holds of the cache afterwards and, under the caller's
-- namespace, of a parent that is returned, whose id is the one that was asked for. So no parent that
-- was cached for another user's namespace is returned.
pub load_parent_response-IsOf :
    (P : ParentKey → ParentResponse → Type 0) (digest : String → Text) (user : Setting)
    (provider : Provider) (parents : Parents) (parent_id : String)
    → AreCached P parents
    → ((r : ParentResponse)
        → provider.get_response parent_id ≡ gives (some r)
        → P
            record {
              provider = provider.identity;
              namespace = scope_thread_id digest user [];
              parent_id = parent_id;
            }
            r)
    → IsOf P
        record {
          provider = provider.identity;
          namespace = scope_thread_id digest user [];
          parent_id = parent_id;
        }
        (load_parent_response digest user (some provider) parents parent_id)
unfolding load_parent_response
load_parent_response-IsOf P digest user provider parents parent_id cached given =
    let k = parent_key digest user provider parent_id in
    elim (Option-cases (find_parent parents k)) [
      | inl e ↦ rw e (take_fetched-IsOf P parents k (provider.get_response parent_id) cached given)
      | inr (q, e) ↦ rw e (
        cached,
        λ r h.
            subst (λ x. P k x × (x.id ≡ some parent_id)) (ok_injective q r h)
              (find_parent-AreCached P parents k q cached e),
      )
    ]
