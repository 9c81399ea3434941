-- ===== src/Requests/Metadata.antt =====
-- The references to checkpoints in metadata: checkpoint_ref.py.
use langchain_azure.Base.{
  some, String, ◌≡◌, ◌≢◌, refl, ap, ◌∙◌, nat_eq, string_eq, codes_eq, option_eq, eq_false,
}
use langchain_azure.Checkpoints.Config.{
  Setting, null, text, Dict, lookup, get_or, or_default, put, lookup-put,
}
use langchain_azure.Savers.Saver.{nonempty}
use langchain_azure.Requests.References.{
  CheckpointRef, both_ids, text_at, metadata_thread_id, metadata_checkpoint_id, checkpoint_ref,
  store_checkpoint_ref,
}

nonempty-text : (s : String) → s ≢ "" → nonempty (text s) ≡ some s
nonempty-text s h = rw (eq_false s "" h) refl

text_at-lookup :
    (d : Dict Setting) (k s : String) → lookup d k ≡ some (text s) → s ≢ "" → text_at d k ≡ some s
unfolding get_or
text_at-lookup d k s h named = ap (λ o. nonempty (or_default null o)) h ∙ nonempty-text s named

-- A reference that is stored in metadata is read back, if neither of its ids is empty, and the other
-- entries of the metadata stay.
pub checkpoint_ref-store_checkpoint_ref :
    (metadata : Dict Setting) (r : CheckpointRef)
    → r.thread_id ≢ ""
    → r.checkpoint_id ≢ ""
    → (changed : Dict Setting) × (store_checkpoint_ref (some metadata) r ≡ some changed)
      × (checkpoint_ref (some changed) ≡ some r)
      × ((k : String)
          → k ≢ metadata_thread_id
          → k ≢ metadata_checkpoint_id
          → lookup changed k ≡ lookup metadata k)
unfolding store_checkpoint_ref checkpoint_ref get_or string_eq
checkpoint_ref-store_checkpoint_ref metadata r thread id =
    let first = put metadata metadata_thread_id (text r.thread_id) in
    let changed = put first metadata_checkpoint_id (text r.checkpoint_id) in
    let thread_at : lookup changed metadata_thread_id ≡ some (text r.thread_id) =
      lookup-put first metadata_checkpoint_id metadata_thread_id (text r.checkpoint_id)
      ∙ lookup-put metadata metadata_thread_id metadata_thread_id (text r.thread_id) in
    let id_at : lookup changed metadata_checkpoint_id ≡ some (text r.checkpoint_id) =
      lookup-put first metadata_checkpoint_id metadata_checkpoint_id (text r.checkpoint_id) in
    (
      changed,
      refl,
      ap (λ o. both_ids o (text_at changed metadata_checkpoint_id))
            (text_at-lookup changed metadata_thread_id r.thread_id thread_at thread)
          ∙ ap (λ o. both_ids (some r.thread_id) o)
              (text_at-lookup changed metadata_checkpoint_id r.checkpoint_id id_at id),
      λ k not_thread not_id.
          lookup-put first metadata_checkpoint_id k (text r.checkpoint_id)
          ∙ rw (eq_false k metadata_checkpoint_id not_id) (
              lookup-put metadata metadata_thread_id k (text r.thread_id)
              ∙ rw (eq_false k metadata_thread_id not_thread) refl),
    )
