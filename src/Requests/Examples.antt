-- ===== src/Requests/Examples.antt =====
-- The theorems about requests at one user's threads.
use langchain_azure.Base.{
  if◌then◌else◌, ◌==◌, ◌&&◌, inr, some, [], ◌∷◌, String, ◌≡◌, ◌≢◌, refl, nat_eq, codes_eq,
  string_eq, option_eq, List, Option, none,
}
use langchain_azure.Base.Words.{Text, codes, starts_with}
use langchain_azure.Checkpoints.Config.{Setting, text, Dict, lookup, get_or}
use langchain_azure.Requests.Threads.{all_hex, cut_first, scope_thread_id, thread_namespace}
use langchain_azure.Requests.References.{
  CheckpointRef, metadata_thread_id, metadata_checkpoint_id, checkpoint_ref, store_checkpoint_ref,
}
use langchain_azure.Requests.Parents.{
  ParentKey, ParentResponse, Provider, gives, load_parent_response, validate_branch_parent,
}
use langchain_azure.Invocations.Values.{Value}
use langchain_azure.Requests.Chains.{Stores, IsStores, found, chain_get, chain_set}
use langchain_azure.Requests.Isolation.{chain_get-chain_set}
use langchain_azure.Requests.Namespaces.{IsDigest, validate_branch_parent-own}
use langchain_azure.Requests.Cache.{IsOf, load_parent_response-IsOf}
use langchain_azure.Requests.Metadata.{checkpoint_ref-store_checkpoint_ref}

abbrev digest_text : String → Text
digest_text user = codes "0123456789abcdef0123456789abcdef0123456789abcdef0123456789abcdef"

digest_text-IsDigest : IsDigest digest_text
unfolding all_hex nat_eq
digest_text-IsDigest = record { has_length = λ s. refl; is_hex = λ s. refl }

abbrev thread : String
thread = "user-0123456789abcdef0123456789abcdef0123456789abcdef0123456789abcdef:t"

abbrev parent : ParentResponse
parent = record {
  id = some "resp";
  status = some "completed";
  internal_metadata = (metadata_thread_id, text thread) ∷ (metadata_checkpoint_id, text "c") ∷ [];
}

abbrev reference : CheckpointRef
reference = record { thread_id = thread; checkpoint_id = "c" }

validate_branch_parent-own_example :
    (parent.status ≡ some "completed")
    × (scope_thread_id digest_text (text "ann") [] ≡ scope_thread_id digest_text (text "ann") [])
unfolding validate_branch_parent thread_namespace cut_first all_hex starts_with nat_eq codes_eq
    string_eq scope_thread_id checkpoint_ref get_or lookup option_eq
validate_branch_parent-own_example =
    validate_branch_parent-own digest_text digest_text-IsDigest (text "ann") (text "ann") "ann"
      (codes "t") parent reference refl refl refl

abbrev provider : Provider
provider = record { identity = 1; get_response = λ id. gives (some parent) }

given_parent : (r : ParentResponse) → gives (some parent) ≡ gives (some r) → r ≡ parent
given_parent r h = cc

-- The provider gives nothing else.
abbrev IsGiven : ParentKey → ParentResponse → Type 0
IsGiven k r = r ≡ parent

load_parent_response-IsOf_example :
    IsOf IsGiven
      record {
        provider = 1;
        namespace = scope_thread_id digest_text (text "ann") [];
        parent_id = "resp";
      }
      (load_parent_response digest_text (text "ann") (some provider) [] "resp")
load_parent_response-IsOf_example =
    load_parent_response-IsOf IsGiven digest_text (text "ann") provider [] "resp" tt
      (λ r h. given_parent r h)

checkpoint_ref-store_checkpoint_ref_example :
    (changed : Dict Setting) × (store_checkpoint_ref (some (("color", text "red") ∷ [])) reference
      ≡ some changed)
    × (checkpoint_ref (some changed) ≡ some reference)
    × ((k : String)
        → k ≢ metadata_thread_id
        → k ≢ metadata_checkpoint_id
        → lookup changed k ≡ lookup (("color", text "red") ∷ []) k)
checkpoint_ref-store_checkpoint_ref_example =
    checkpoint_ref-store_checkpoint_ref (("color", text "red") ∷ []) reference (cc) (cc)

abbrev Contents : Type 0
Contents = List (Text × String × Value)

unfoldable find_item : Contents → Text → String → Option Value
find_item [] store k = none
find_item ((j, i, v) ∷ s) store k = if store == j && k == i then some v else find_item s store k

abbrev one_place : Stores
one_place = record {
  State = Contents;
  get_item = find_item;
  set_item = λ s store k v. (store, k, v) ∷ s;
}

one_place-IsStores : IsStores one_place
unfolding find_item
one_place-IsStores = record { get-set = λ s store other key k v. refl }

chain_get-chain_set_example :
    (chain_get one_place
        (chain_set one_place [] "resp" "ref" (("thread_id", "t") ∷ []))
        "resp"
        "ref"
      ≡ found (("thread_id", "t") ∷ []))
    × (chain_get one_place
          (chain_set one_place [] "resp" "ref" (("thread_id", "t") ∷ []))
          "resp"
          "other"
        ≡ chain_get one_place [] "resp" "other")
chain_get-chain_set_example =
    chain_get-chain_set one_place one_place-IsStores [] "resp" "ref" "resp" "other"
      (("thread_id", "t") ∷ []) (inr (cc))
