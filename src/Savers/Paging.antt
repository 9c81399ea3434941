-- ===== src/Savers/Paging.antt =====
-- The loop over the pages of a listing.
use langchain_azure.Base.{
  ℕ, zero, suc, ◌≤◌, ◌<◌, Bool, Option, some, List, [], ◌∷◌, ◌≡◌, ◌≢◌, refl, ap, ◌∙◌, arith, length,
  take, drop, take-append-drop, length-drop, take-all, Bool-cases, inl, inr,
}
use langchain_azure.Savers.Store.{Tags, Service, IsService}
use langchain_azure.Savers.Saver.{done, page_size, collect_keys}

not_empty : {A : Type 0} (xs : List A) → xs ≢ [] → 1 ≤ length xs
not_empty [] h = absurd (h refl)
not_empty (x ∷ xs) h = omega arith

empty_drop : {A : Type 0} (n : ℕ) (xs : List A) → drop n xs ≡ [] → take n xs ≡ xs
empty_drop n xs h = take-all n xs (omega (arith, ap length h, length-drop n xs))

-- With more fuel than there are keys, the loop ends with all keys of the listing, in order.
pub collect_keys_all :
    (F : Service) (law : IsService F) (fuel : ℕ) (s : F.State) (tags : Tags) (desc : Bool)
    (after : Option F.Cursor)
    → length (law.rest s tags desc after) < fuel
    → collect_keys F fuel s tags desc after ≡ done (law.rest s tags desc after)
unfolding collect_keys
collect_keys_all F law zero s tags desc after h = absurd (omega arith)
collect_keys_all F law (suc fuel) s tags desc after h =
    let page = F.list_keys s tags page_size desc after in
    elim (Bool-cases page.has_more) [
      | inl e ↦
          (let (d, last, following, more) = law.page_more s tags page_size desc after e in
            let whole = law.rest s tags desc after in
            let following_keys = collect_keys_all F law fuel s tags desc (some d) (
              omega (
                arith,
                ap length following,
                length-drop page_size whole,
                not_empty (drop page_size whole) more,
              )) in
            rw e (
              rw last (
                rw following_keys (
                  ap done (
                    rw (law.page_keys s tags page_size desc after)
                      (rw following (take-append-drop page_size whole)))))))
      | inr e ↦ rw e (
          ap done (
            law.page_keys s tags page_size desc after
            ∙ empty_drop page_size (law.rest s tags desc after)
                (law.page_last s tags page_size desc after e)))
    ]
