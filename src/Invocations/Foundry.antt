-- ===== src/Invocations/Foundry.antt =====
-- `FoundryInvocationStateStore`, over the items of one user's state store.
pub mod Agreement
use langchain_azure.Base.{
  ℕ, Bool, true, false, Option, none, some, String, ◌==◌, string_eq, if◌then◌else◌, ◌≡◌,
}
use langchain_azure.Invocations.Values.{Value, null, dict, Fields, end, get}
use langchain_azure.Invocations.Records.{
  read_record, read_recovery_state, set_value, set_recovery_value, id_of, nonempty_id,
}
use langchain_azure.Invocations.Errors.{Result, ok, err, missing_id, not_a_dict}

-- `FoundryStateStore`: items by key, where a call that returns has been made.
pub record ItemStore : Type 1 where
  pub State : Type 0
  pub get_item : State → String → Option Value
  pub set_item : State → String → Fields → State
  pub delete_item : State → String → State

pub record IsItemStore (S : ItemStore) : Type 0 where
  pub get-set :
      (s : S.State) (k j : String) (d : Fields)
      → S.get_item (S.set_item s k d) j ≡ (if j == k then some (dict d) else S.get_item s j)
  pub get-delete :
      (s : S.State) (k j : String)
      → S.get_item (S.delete_item s k) j ≡ (if j == k then none else S.get_item s j)

-- item.value if item is not None else None
abbrev pub item_value : Option Value → Value
item_value none = null
item_value (some v) = v

module _ (S : ItemStore) where
  unfoldable pub got : S.State → String → Option Fields × Bool → S.State × Option Fields
  got s id (envelope, true) = (S.delete_item s id, envelope)
  got s id (envelope, false) = (s, envelope)

  unfoldable pub get_envelope : ℕ → S.State → String → S.State × Option Fields
  unfolding got
  get_envelope now s id = got s id (read_record now (item_value (S.get_item s id)))

  unfoldable pub store : S.State → String → Option Fields → S.State
  store s id none = s
  store s id (some d) = S.set_item s id d

  unfoldable pub set_at : ℕ → S.State → Fields → Option String → S.State × Result (Unit {0})
  unfolding store
  set_at now s envelope none = (s, err missing_id)
  set_at now s envelope (some id) =
      (store s id (set_value now (item_value (S.get_item s id)) envelope), ok tt)

  unfoldable pub set_envelope : ℕ → S.State → Fields → S.State × Result (Unit {0})
  unfolding set_at
  set_envelope now s envelope = set_at now s envelope (id_of (get envelope "id"))

  unfoldable pub get_recovery_state : S.State → String → Option Fields
  get_recovery_state s id = read_recovery_state (item_value (S.get_item s id))

  -- An item that is no dictionary has no place for the state.
  unfoldable pub recover_item :
      ℕ → S.State → String → Fields → Option Value → S.State × Result (Unit {0})
  unfolding store
  recover_item now s id state none = (store s id (set_recovery_value now end state), ok tt)
  recover_item now s id state (some (dict d)) = (store s id (set_recovery_value now d state), ok tt)
  recover_item now s id state (some v) = (s, err not_a_dict)

  unfoldable pub set_recovery_at :
      ℕ → S.State → Fields → Option String → S.State × Result (Unit {0})
  unfolding recover_item
  set_recovery_at now s state none = (s, err missing_id)
  set_recovery_at now s state (some id) = recover_item now s id state (S.get_item s id)

  unfoldable pub set_recovery_state : ℕ → S.State → String → Fields → S.State × Result (Unit {0})
  unfolding set_recovery_at
  set_recovery_state now s id state = set_recovery_at now s state (nonempty_id id)
