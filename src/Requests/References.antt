-- ===== src/Requests/References.antt =====
-- References to checkpoints: `CheckpointRef` and the metadata of a response (task_storage_manager.py).
use langchain_azure.Base.{
  Bool, false, Option, none, some, [], ◌∷◌, String, if◌then◌else◌, string_eq, ◌||◌, is_some,
}
use langchain_azure.Checkpoints.Config.{Setting, null, text, Dict, get_or, lookup, put}
use langchain_azure.Savers.Saver.{nonempty}

pub record CheckpointRef : Type 0 where
  pub thread_id : String
  pub checkpoint_id : String

abbrev pub both_ids : Option String → Option String → Option CheckpointRef
both_ids (some thread) (some id) = some record { thread_id = thread; checkpoint_id = id }
both_ids thread id = none

abbrev pub text_at : Dict Setting → String → Option String
text_at d k = nonempty (get_or null d k)

-- `CheckpointRef.from_dict`
unfoldable pub from_dict : Option (Dict Setting) → Option CheckpointRef
unfolding get_or string_eq
from_dict none = none
from_dict (some d) = both_ids (text_at d "thread_id") (text_at d "checkpoint_id")

-- `CheckpointRef.to_dict`
abbrev pub to_dict : CheckpointRef → Dict Setting
to_dict r = ("thread_id", text r.thread_id) ∷ ("checkpoint_id", text r.checkpoint_id) ∷ []

abbrev pub metadata_thread_id : String
metadata_thread_id = "langgraph_thread_id"

abbrev pub metadata_checkpoint_id : String
metadata_checkpoint_id = "langgraph_checkpoint_id"

-- `TaskStorageManager.checkpoint_ref`
unfoldable pub checkpoint_ref : Option (Dict Setting) → Option CheckpointRef
unfolding get_or string_eq
checkpoint_ref none = none
checkpoint_ref (some metadata) =
    both_ids (text_at metadata metadata_thread_id) (text_at metadata metadata_checkpoint_id)

-- `none` is the RuntimeError.
abbrev pub unless_present : Bool → Option CheckpointRef → Option (Option CheckpointRef)
unless_present present (some r) = some (some r)
unless_present present none = if present then none else some none

abbrev pub has_reference : Option (Dict Setting) → Bool
has_reference none = false
has_reference (some metadata) =
    is_some (lookup metadata metadata_thread_id) || is_some (lookup metadata metadata_checkpoint_id)

-- `TaskStorageManager.recovery_checkpoint_ref`
unfoldable pub recovery_checkpoint_ref : Option (Dict Setting) → Option (Option CheckpointRef)
unfolding checkpoint_ref lookup
recovery_checkpoint_ref metadata = unless_present (has_reference metadata) (checkpoint_ref metadata)

-- `TaskStorageManager.store_checkpoint_ref`
unfoldable pub store_checkpoint_ref : Option (Dict Setting) → CheckpointRef → Option (Dict Setting)
unfolding put
store_checkpoint_ref none r = none
store_checkpoint_ref (some metadata) r = some (
    put (put metadata metadata_thread_id (text r.thread_id)) metadata_checkpoint_id
      (text r.checkpoint_id))
