-- ===== src/Invocations/Foundry/Agreement.antt =====
-- What `FoundryInvocationStateStore` does to the items, against the contract of the operations.
use langchain_azure.Base.{
  sym, subst, ℕ, Bool, true, false, Option, none, some, String, ◌≡◌, ◌≢◌, refl, ◌∙◌, if◌then◌else◌,
  string_eq, eq_false, eq_refl,
}
use langchain_azure.Invocations.Values.{Value, dict, Fields, end, get}
use langchain_azure.Invocations.Records.{
  read_record, set_value, set_recovery_value, id_of, nonempty_id,
}
use langchain_azure.Invocations.Errors.{ok, value_of}
use langchain_azure.Invocations.Foundry.{
  ItemStore, IsItemStore, item_value, got, get_envelope, store, set_at, set_envelope, recover_item,
  set_recovery_at, set_recovery_state,
}
use langchain_azure.Invocations.Contract.{
  IsRead, IsPublished, IsRecovered, serve-IsRead, serve-IsPublished, serve-IsRecovered,
}
use langchain_azure.Invocations.Histories.{look, publish, recover, serve, or_kept}

abbrev pub item_of : Option Fields → Option Value
item_of none = none
item_of (some d) = some (dict d)

module _ (S : ItemStore) (G : IsItemStore S) where
  abbrev pub HoldsItem : S.State → String → Option Fields → Type 0
  HoldsItem s id slot = S.get_item s id ≡ item_of slot

  abbrev pub KeepsOthers : S.State → S.State → String → Type 0
  KeepsOthers s s' id = (j : String) → j ≢ id → S.get_item s' j ≡ S.get_item s j

  item_value-item_of : (slot : Option Fields) → item_value (item_of slot) ≡ value_of slot
  item_value-item_of none = refl
  item_value-item_of (some d) = refl

  store-item :
      (s : S.State) (id : String) (o slot : Option Fields)
      → HoldsItem s id slot
      → HoldsItem (store S s id o) id (or_kept o slot) × KeepsOthers s (store S s id o) id
  unfolding store
  store-item s id none slot h = (h, λ j n. refl)
  store-item s id (some d) slot h = (
    G.get-set s id id d ∙ rw (eq_refl id) refl,
    λ j n. G.get-set s id j d ∙ rw (eq_false j id n) refl,
  )

  set_envelope-item :
      (now : ℕ) (s : S.State) (envelope : Fields) (id : String) (slot : Option Fields)
      → id_of (get envelope "id") ≡ some id
      → HoldsItem s id slot
      → HoldsItem (set_envelope S now s envelope).0 id (serve now slot (publish envelope))
        × KeepsOthers s (set_envelope S now s envelope).0 id
  unfolding set_envelope set_at serve
  set_envelope-item now s envelope id slot named h = rw named (
      rw h (
        rw (item_value-item_of slot)
          (store-item s id (set_value now (value_of slot) envelope) slot h)))

  recover-item :
      (now : ℕ) (s : S.State) (id : String) (state : Fields) (slot : Option Fields)
      → HoldsItem s id slot
      → HoldsItem
          (recover_item S now s id state (item_of slot)).0
          id
          (serve now slot (recover state))
        × KeepsOthers s (recover_item S now s id state (item_of slot)).0 id
  unfolding recover_item serve
  recover-item now s id state none h = store-item s id (set_recovery_value now end state) none h
  recover-item now s id state (some d) h =
      store-item s id (set_recovery_value now d state) (some d) h

  set_recovery_state-item :
      (now : ℕ) (s : S.State) (id : String) (state : Fields) (slot : Option Fields)
      → nonempty_id id ≡ some id
      → HoldsItem s id slot
      → HoldsItem (set_recovery_state S now s id state).0 id (serve now slot (recover state))
        × KeepsOthers s (set_recovery_state S now s id state).0 id
  unfolding set_recovery_state set_recovery_at
  set_recovery_state-item now s id state slot named h =
      rw named (rw h (recover-item now s id state slot h))

  got-item :
      (s : S.State) (id : String) (slot e : Option Fields) (expired : Bool)
      → HoldsItem s id slot
      → HoldsItem (got S s id (e, expired)).0 id (if expired then none else slot)
        × ((got S s id (e, expired)).1 ≡ e)
        × KeepsOthers s (got S s id (e, expired)).0 id
  unfolding got
  got-item s id slot e false h = (h, refl, λ j n. refl)
  got-item s id slot e true h = (
    G.get-delete s id id ∙ rw (eq_refl id) refl,
    refl,
    λ j n. G.get-delete s id j ∙ rw (eq_false j id n) refl,
  )

  get_envelope-item :
      (now : ℕ) (s : S.State) (id : String) (slot : Option Fields)
      → HoldsItem s id slot
      → HoldsItem (get_envelope S now s id).0 id (serve now slot look)
        × ((get_envelope S now s id).1 ≡ (read_record now (value_of slot)).0)
        × KeepsOthers s (get_envelope S now s id).0 id
  unfolding get_envelope serve
  get_envelope-item now s id slot h = rw h (
      rw (item_value-item_of slot) (
        got-item s id slot (read_record now (value_of slot)).0 (read_record now (value_of slot)).1
          h))

  -- `set` with an id succeeds. Where the item shows an envelope that is terminal or whose sequence
  -- number is not lower, it stays; otherwise the item becomes a record of the new envelope, which
  -- expires if the envelope is terminal and keeps the recovery state if not. Other items stay.
  pub set_envelope-IsPublished :
      (now : ℕ) (s : S.State) (envelope : Fields) (id : String) (slot : Option Fields)
      → id_of (get envelope "id") ≡ some id
      → HoldsItem s id slot
      → (next : Option Fields) × HoldsItem (set_envelope S now s envelope).0 id next
        × IsPublished now slot envelope next
        × ((set_envelope S now s envelope).1 ≡ ok tt)
        × KeepsOthers s (set_envelope S now s envelope).0 id
  unfolding set_envelope set_at
  set_envelope-IsPublished now s envelope id slot named h =
      let (held, others) = set_envelope-item now s envelope id slot named h in
      (
        serve now slot (publish envelope),
        held,
        serve-IsPublished now slot envelope,
        rw named refl,
        others,
      )

  recover_item-ok :
      (now : ℕ) (s : S.State) (id : String) (state : Fields) (slot : Option Fields)
      → (recover_item S now s id state (item_of slot)).1 ≡ ok tt
  unfolding recover_item
  recover_item-ok now s id state none = refl
  recover_item-ok now s id state (some d) = refl

  -- `set_recovery_state` with an id that is not empty succeeds. Where the item shows a terminal
  -- envelope, it stays; otherwise the state is put into it, and its envelope and its time stay. Other
  -- items stay.
  pub set_recovery_state-IsRecovered :
      (now : ℕ) (s : S.State) (id : String) (state : Fields) (slot : Option Fields)
      → nonempty_id id ≡ some id
      → HoldsItem s id slot
      → (next : Option Fields) × HoldsItem (set_recovery_state S now s id state).0 id next
        × IsRecovered now slot state next
        × ((set_recovery_state S now s id state).1 ≡ ok tt)
        × KeepsOthers s (set_recovery_state S now s id state).0 id
  unfolding set_recovery_state set_recovery_at
  set_recovery_state-IsRecovered now s id state slot named h =
      let (held, others) = set_recovery_state-item now s id state slot named h in
      (
        serve now slot (recover state),
        held,
        serve-IsRecovered now slot state,
        rw named (rw h (recover_item-ok now s id state slot)),
        others,
      )

  -- `get` returns the envelope that the item shows, and nothing where there is none or where the
  -- item's time has come; in the last case it deletes the item, otherwise the item stays. Other items
  -- stay.
  pub item_get-IsRead :
      (now : ℕ) (s : S.State) (id : String) (slot : Option Fields)
      → HoldsItem s id slot
      → (next : Option Fields) × HoldsItem (get_envelope S now s id).0 id next
        × IsRead now slot next (get_envelope S now s id).1
        × KeepsOthers s (get_envelope S now s id).0 id
  item_get-IsRead now s id slot h =
      let (held, result, others) = get_envelope-item now s id slot h in
      (
        serve now slot look,
        held,
        subst (λ o. IsRead now slot (serve now slot look) o) (sym result) (serve-IsRead now slot),
        others,
      )
