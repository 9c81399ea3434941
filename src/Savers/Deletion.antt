-- ===== src/Savers/Deletion.antt =====
-- What `adelete_thread` leaves.
use langchain_azure.Base.{
  ℕ, ◌<◌, true, false, none, some, List, [], ◌∷◌, String, ◌≡◌, ◌≢◌, refl, sym, ap, ◌∙◌, arith,
  length, In, Option-cases, inl, inr, ◌==◌, codes_eq, string_eq, eq_refl, eq_false,
}
use langchain_azure.Base.Words.{Text}
use langchain_azure.Savers.Store.{Service, IsService}
use langchain_azure.Savers.Saver.{done}
use langchain_azure.Savers.Writes.{delete_all, adelete_thread}
use langchain_azure.Savers.Paging.{collect_keys_all}

module _ (F : Service) (law : IsService F) where
  delete_all-none :
      (s : F.State) (keys : List Text) (k : Text)
      → F.get_item s k ≡ none
      → F.get_item (delete_all F s keys) k ≡ none
  unfolding delete_all
  delete_all-none s [] k h = h
  delete_all-none s (key ∷ keys) k h =
      delete_all-none (F.delete_item s key) keys k (law.get-delete s key k ∙ ground (arith))

  delete_all-In :
      (s : F.State) (keys : List Text) (k : Text)
      → In k keys
      → F.get_item (delete_all F s keys) k ≡ none
  unfolding delete_all
  delete_all-In s [] k none_there = absurd none_there
  delete_all-In s (key ∷ keys) k (inl same) =
      delete_all-none (F.delete_item s key) keys k
        (law.get-delete s key k ∙ rw (ap (λ x. k == x) (sym same) ∙ eq_refl k) refl)
  delete_all-In s (key ∷ keys) k (inr later) = delete_all-In (F.delete_item s key) keys k later

-- Deleting a thread whose store isolates its users ends, given more fuel than the store lists keys
-- of the user, with no item left, and keeps the store.
pub adelete_thread-removes_items :
    (F : Service) (law : IsService F) (fuel : ℕ) (s : F.State) (thread_id : String)
    → thread_id ≢ ""
    → F.user_isolation s ≡ true
    → length (law.rest s [] false none) < fuel
    → (left : F.State) × (adelete_thread F fuel (some s) thread_id ≡ done (some left))
      × ((k : Text) → F.get_item left k ≡ none)
unfolding adelete_thread
adelete_thread-removes_items F law fuel s thread_id named isolated enough =
    let keys = law.rest s [] false none in
    (
      delete_all F s keys,
      rw (eq_false thread_id "" named)
          (rw isolated (rw (collect_keys_all F law fuel s [] false none enough))),
      λ k. elim (Option-cases (F.get_item s k)) [
        | inl e ↦ delete_all-none F law s keys k e
        | inr (v, e) ↦ delete_all-In F law s keys k (law.listed s false k v e)
      ],
    )
