-- ===== src/Blob/Select/Windows.antt =====
-- `_windows` cuts a list into chunks.
use langchain_azure.Base.{
  ℕ, zero, suc, ◌≤◌, ◌<◌, ◌≡◌, refl, ap, ◌∙◌, List, [], ◌∷◌, ◌++◌, arith, All, length, take, drop,
  concat, take-append-drop, length-take, length-drop,
}
use langchain_azure.Blob.Select.{windows, windows_from}

module _ {ℓ} {A : Type ℓ} where
  abbrev pub IsChunk : ℕ → List A → Type 0
  IsChunk size chunk = (0 < length chunk) × (length chunk ≤ size)

  concat-windows_from :
      (fuel size : ℕ) (items : List A)
      → 0 < size
      → length items ≤ fuel
      → concat (windows_from fuel size items) ≡ items
  unfolding windows_from
  concat-windows_from zero size [] p h = refl
  concat-windows_from zero size (x ∷ items) p h = absurd (omega arith)
  concat-windows_from (suc fuel) size [] p h = refl
  concat-windows_from (suc fuel) size (x ∷ items) p h =
      ap (λ r. take size (x ∷ items) ++ r)
        (concat-windows_from fuel size (drop size (x ∷ items)) p
          (omega (arith, length-drop size (x ∷ items))))
      ∙ take-append-drop size (x ∷ items)

  windows_from-IsChunk :
      (fuel size : ℕ) (items : List A)
      → 0 < size
      → All (IsChunk size) (windows_from fuel size items)
  unfolding windows_from
  windows_from-IsChunk zero size items p = tt
  windows_from-IsChunk (suc fuel) size [] p = tt
  windows_from-IsChunk (suc fuel) size (x ∷ items) p = (
    omega (arith, length-take size (x ∷ items)),
    windows_from-IsChunk fuel size (drop size (x ∷ items)) p,
  )

  -- With a positive size the chunks make up the list again, in order, and each has at least one item
  -- and at most `size`.
  pub windows_partition :
      (items : List A) (size : ℕ)
      → 0 < size
      → (concat (windows items size) ≡ items) × All (IsChunk size) (windows items size)
  unfolding windows
  windows_partition items size p = (
    concat-windows_from (length items) size items p (omega arith),
    windows_from-IsChunk (length items) size items p,
  )
