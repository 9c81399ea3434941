-- ===== src/Requests/Isolation.antt =====
-- What `ConversationChainStoreProtocol` requires of a chain store: persistence and isolation.
use langchain_azure.Base.{
  Bool, true, false, some, List, [], ◌∷◌, String, ◌≡◌, ◌≢◌, refl, ap, ◌∙◌, ◌==◌, ◌&&◌, string_eq,
  codes_eq, eq_refl, eq_false, inl, inr, ◌⊎◌,
}
use langchain_azure.Base.Words.{codes, append_cancel}
use langchain_azure.Invocations.Values.{dict}
use langchain_azure.Requests.Chains.{
  Stores, IsStores, found, chain_prefix, chain_store_name, add_text, texts_of, record_in, fields_of,
  chain_get, chain_set,
}

texts_of-fields_of : (d : List (String × String)) → texts_of (fields_of d) ≡ found d
unfolding texts_of fields_of
texts_of-fields_of [] = refl
texts_of-fields_of ((k, s) ∷ d) = ap (λ r. add_text k s r) (texts_of-fields_of d)

and_false : (b : Bool) → (b && false) ≡ false
and_false true = refl
and_false false = refl

same_store :
    (chain other : String)
    → codes other ≢ codes chain
    → (chain_store_name other == chain_store_name chain) ≡ false
same_store chain other h =
    eq_false (chain_store_name other) (chain_store_name chain)
      (λ p. h (append_cancel chain_prefix (codes other) (codes chain) p))

-- After `set`, `get` returns the very dictionary for the same chain and key, and a record of another
-- chain or under another key reads as before, also where it is absent or malformed.
pub chain_get-chain_set :
    (S : Stores) (law : IsStores S) (s : S.State) (chain key other k : String)
    (entries : List (String × String))
    → (codes other ≢ codes chain) ⊎ (k ≢ key)
    → (chain_get S (chain_set S s chain key entries) chain key ≡ found entries)
      × (chain_get S (chain_set S s chain key entries) other k ≡ chain_get S s other k)
unfolding chain_get chain_set
chain_get-chain_set S law s chain key other k entries differs =
    let v = dict (fields_of entries) in
    let store = chain_store_name chain in
    let there = chain_store_name other in
    let own : S.get_item (S.set_item s store key v) store key ≡ some v =
      law.get-set s store store key key v ∙ rw (eq_refl store) (rw (eq_refl key) refl) in
    let others : S.get_item (S.set_item s store key v) there k ≡ S.get_item s there k =
      law.get-set s store there key k v ∙ elim differs [
        | inl chains ↦ rw (same_store chain other chains) refl
        | inr keys ↦ rw (eq_false k key keys) (rw (and_false (there == store)) refl)
      ] in
    (ap record_in own ∙ texts_of-fields_of entries, ap record_in others)
