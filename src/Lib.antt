-- ===== src/Lib.antt =====
-- langchain-azure: a model of the repository's own logic, with the theorems that make it correct.
--
-- Blob models libs/azure-storage/langchain_azure_storage/deepagents, a file system for agents on a
-- blob container. Blob/Paths is _utils.py: virtual paths, blob keys, listing prefixes. Blob/Select
-- holds the pure functions of backend.py (`_ls_result`, `_glob_result`, `_grep_lines`,
-- `_keys_to_delete`, `_windows` and the error texts). Blob/Writes has the operations of
-- `AzureBlobBackend` that change the container (`write`, `edit`, `delete`, `upload_files`),
-- Blob/Reads those that read it (`ls`, `read`, `glob`, `grep`, `download_files`). The asynchronous
-- twins differ from these by `await` only. Blob/Library is what the code takes from deepagents,
-- wcmatch, pathlib and Python's codecs, Blob/Service the container of the Azure SDK; each is a
-- record of functions, with a record of the laws that its documentation states. Every operation
-- takes the container's state and returns the new one with a result or the exception that leaves
-- it. `edit` takes besides what other clients do between its download and its upload. The calls of
-- a thread pool are taken in input order, and all of them: after an exception that is not Azure's,
-- where the pool cancels deletes that have not begun, the model's `remove_all` makes them too.
-- Texts are taken to be encodable (no lone surrogates), and `validate_path` to give paths of its
-- documented form, with one leading slash. The making and closing of SDK clients is not modelled.
--
-- Invocations models _invocation_store.py of libs/azure-ai/langchain_azure_ai/agents/hosting.
-- Invocations/Values has JSON values, Invocations/Records the functions `_record`, `_read_record`,
-- `_should_replace` and the like, Invocations/Files the class `FileInvocationStateStore` and
-- Invocations/Foundry the class `FoundryInvocationStateStore`. Invocations/Contract says by the
-- entries of a record what a get, a set and a recovery state may do to it, and
-- Invocations/Histories what a sequence of requests does to one; Invocations/Files/Refinement and
-- Invocations/Foundry/Agreement are about the stores and these. Times are whole seconds; json,
-- SHA-256 and the Foundry item service are records with laws. An operation of the file store holds
-- its lock, so it is one step; its write of a temporary file with the replacement and the unlinking
-- succeeds or fails as a whole, and of a read's failures a missing file and malformed JSON are
-- modelled; the Foundry store takes no lock, and its operations are modelled as if none overlapped
-- on one id. Statuses are texts or other hashable values.
--
-- Checkpoints models _checkpoint/_checkpoint_reuse.py of the same package: a request reads its
-- input checkpoint once and keeps it. Checkpoints/Config and Checkpoints/Serialized are
-- `_reference_config` and `_SerializedCheckpoint`, Checkpoints/Restored is about the two together,
-- Checkpoints/Reuse the `_CheckpointReadContext` and what every call of `_RequestCheckpointSaver`
-- that writes does to it, Checkpoints/Reads `aget_tuple`, cut where it awaits the wrapped saver.
-- Checkpoints/Steps puts reads and writes on their way side by side, so that any other call may
-- come between the parts of one; Checkpoints/Runs and Checkpoints/Ended are about whole requests.
-- The serializer, frozen sets of allowlists, `==` of dictionaries, `get_checkpoint_id` and the
-- wrapped savers are records with laws. The variable that binds a context, copies of a wrapper and
-- a failing deepcopy are not modelled; a call of the wrapped saver may fail as it likes.
--
-- Streaming models _converters/_stream.py and _text.py, which turn a graph's stream into events of
-- the Responses API. Streaming/Content reads the texts and reasoning summaries of a message's
-- content, Streaming/Emitters are `_ReasoningEmitter`, `_TextMessageEmitter` and the generators of
-- tool calls, Streaming/Queue is `_OutputQueue` and Streaming/Converter `StreamConverter` with
-- `stream_graph_to_events`. An event is the builder call of the SDK that makes it; the stream that
-- reserves output positions and the check of annotations are parameters. Streaming/Brackets to
-- Streaming/Whole show in which order the events come. Token usage and a stop in the middle of a
-- chunk are not modelled.
--
-- Savers models _checkpoint/_foundry_checkpoint_saver.py of the hosting package. Savers/Keys are
-- the names of stores and keys of items, Savers/Store the item service and the serializer as
-- records with laws, Savers/Saver what the methods share, with the loop over the pages of a
-- listing. Savers/Reads is `aget_tuple`, Savers/Listings `alist` as what its iterator yields,
-- Savers/Writes `aput`, `aput_writes` and `adelete_thread`. Loops over pages take fuel; more fuel
-- than the listing has keys is enough, and where a result depends on it, the theorems show that the
-- calls return. No other client changes a store during a call.
--
-- Requests models a part of _responses of the hosting package: Requests/Threads are
-- `_scope_thread_id` and `_thread_namespace`, Requests/References checkpoint_ref.py and
-- task_storage_manager.py, Requests/Parents `_load_parent_response` and `_validate_branch_parent`,
-- with the cache of parents in Requests/Cache, Requests/Chains conversation_chain_store.py. The
-- provider of responses, named state stores and SHA-256 are parameters.
--
-- Texts of paths are lists of code points. Recursions are structural; the windows of a list and the
-- digits of a number take fuel, the length and the number itself, which is enough since each round
-- uses up at least one.
--
-- Not modelled: hosts, the other converters, vector stores, tracing, middleware and the adapters of
-- remote services.
pub mod Base
pub mod Blob
pub mod Invocations
pub mod Checkpoints
pub mod Streaming
pub mod Savers
pub mod Requests
