-- ===== src/Requests/Parents.antt =====
-- The parent response of a request: `_load_parent_response` and `_validate_branch_parent`
-- (request_preparation.py).
use langchain_azure.Base.{
  ℕ, Bool, false, Option, none, some, List, [], ◌∷◌, String, if◌then◌else◌, ◌==◌, ◌&&◌, string_eq,
  codes_eq, nat_eq, option_eq,
}
use langchain_azure.Base.Words.{Text, codes}
use langchain_azure.Checkpoints.Config.{Setting, Dict}
use langchain_azure.Requests.Threads.{scope_thread_id, thread_namespace}
use langchain_azure.Requests.References.{CheckpointRef, text_at, metadata_thread_id, checkpoint_ref}

-- What is read of a response. `internal_metadata` is that of its event stream.
pub record ParentResponse : Type 0 where
  pub id : Option String
  pub status : Option String
  pub internal_metadata : Dict Setting

-- `_RequestValidationError`, less its message
pub record RequestError : Type 0 where
  pub param : String
  pub status_code : ℕ
  pub code : String

pub data Answer {ℓ} (A : Type ℓ) : Type ℓ where
  ok : A → Answer A
  refused : RequestError → Answer A
  -- any other exception
  raised : Answer A

abbrev pub not_found : RequestError
not_found = record {
  param = "previous_response_id";
  status_code = 404;
  code = "previous_response_not_found";
}

abbrev pub invalid : RequestError
invalid = record {
  param = "previous_response_id";
  status_code = 400;
  code = "invalid_request_error";
}

-- id(provider), the user's namespace and the id of the parent
pub record ParentKey : Type 0 where
  pub provider : ℕ
  pub namespace : Text
  pub parent_id : String

abbrev pub same_key : ParentKey → ParentKey → Bool
same_key a b =
    a.provider == b.provider && (a.namespace == b.namespace && a.parent_id == b.parent_id)

abbrev pub Parents : Type 0
Parents = List (ParentKey × ParentResponse)

unfoldable pub find_parent : Parents → ParentKey → Option ParentResponse
unfolding string_eq
find_parent [] k = none
find_parent ((j, r) ∷ parents) k = if same_key k j then some r else find_parent parents k

-- What a provider's get_response comes to.
pub data Fetch : Type 0 where
  gives : Option ParentResponse → Fetch
  -- KeyError, FoundryResourceNotFoundError or ResourceNotFoundError
  misses : Fetch
  fails : Fetch

pub record Provider : Type 0 where
  pub identity : ℕ
  pub get_response : String → Fetch

abbrev pub take_fetched : Parents → ParentKey → Fetch → Parents × Answer ParentResponse
take_fetched parents k (gives (some r)) =
    if r.id == some k.parent_id then ((k, r) ∷ parents, ok r) else (parents, refused not_found)
take_fetched parents k (gives none) = (parents, refused not_found)
take_fetched parents k misses = (parents, refused not_found)
take_fetched parents k fails = (parents, raised)

abbrev pub or_fetch :
    Parents → ParentKey → Fetch → Option ParentResponse → Parents × Answer ParentResponse
or_fetch parents k fetch (some r) = (parents, ok r)
or_fetch parents k fetch none = take_fetched parents k fetch

abbrev pub parent_key : (String → Text) → Setting → Provider → String → ParentKey
parent_key digest user provider parent_id = record {
  provider = provider.identity;
  namespace = scope_thread_id digest user [];
  parent_id = parent_id;
}

-- `_load_parent_response`. A missing provider raises a RuntimeError.
unfoldable pub load_parent_response :
    (String → Text) → Setting → Option Provider → Parents → String → Parents × Answer ParentResponse
unfolding find_parent scope_thread_id
load_parent_response digest user none parents parent_id = (parents, raised)
load_parent_response digest user (some provider) parents parent_id =
    let k = parent_key digest user provider parent_id in
    or_fetch parents k (provider.get_response parent_id) (find_parent parents k)

abbrev pub is_own : (String → Text) → Setting → Option String → Bool
is_own digest user none = false
is_own digest user (some thread_id) =
    thread_namespace (codes thread_id) == scope_thread_id digest user []

abbrev pub with_reference : Option String → Option CheckpointRef → Answer CheckpointRef
with_reference status none = refused invalid
with_reference status (some r) = if status == some "completed" then ok r else refused invalid

-- `_validate_branch_parent`
unfoldable pub validate_branch_parent :
    (String → Text) → Setting → ParentResponse → Answer CheckpointRef
unfolding checkpoint_ref thread_namespace scope_thread_id string_eq
validate_branch_parent digest user parent =
    if is_own digest user (text_at parent.internal_metadata metadata_thread_id)
    then with_reference parent.status (checkpoint_ref (some parent.internal_metadata))
    else refused not_found
