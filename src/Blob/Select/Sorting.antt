-- ===== src/Blob/Select/Sorting.antt =====
-- `_ls_result`: the entries that it makes of a walk, and their order.
use mathlib.Core.List.{Perm}
use mathlib.Core.List.Perm
use langchain_azure.Blob.Paths.{from_blob_key}
use langchain_azure.Base.{
  ℕ, false, none, some, refl, ap, ◌⊎◌, true, ◌≡◌, List, [], ◌∷◌, inl, inr, Bool-cases,
}
use langchain_azure.Base.Words.{Text, slash, ends_with, text_leb, text_leb_total}
use langchain_azure.Blob.Select.{
  or_else, FileInfo, insert_by_path, sort_by_path, ls_entries, ls_result,
}
use langchain_azure.Blob.Service.{Item, blob_prefix, blob}

-- Code-point order is total.
abbrev pub Below : Text → List FileInfo → Type 0
Below p [] = Unit {0}
Below p (x ∷ xs) = text_leb p x.path ≡ true

-- Each entry's path is at most the next one's.
abbrev pub IsSorted : List FileInfo → Type 0
IsSorted [] = Unit {0}
IsSorted (x ∷ xs) = Below x.path xs × IsSorted xs

insert_by_path-Below :
    (p : Text) (x : FileInfo) (xs : List FileInfo)
    → text_leb p x.path ≡ true
    → Below p xs
    → Below p (insert_by_path x xs)
unfolding insert_by_path
insert_by_path-Below p x [] h b = h
insert_by_path-Below p x (y ∷ ys) h b = elim (Bool-cases (text_leb x.path y.path)) [
  | inl e ↦ rw e h
  | inr e ↦ rw e b
]

insert_by_path-IsSorted :
    (x : FileInfo) (xs : List FileInfo) → IsSorted xs → IsSorted (insert_by_path x xs)
unfolding insert_by_path
insert_by_path-IsSorted x [] s = (tt, tt)
insert_by_path-IsSorted x (y ∷ ys) s = elim (Bool-cases (text_leb x.path y.path)) [
  | inl e ↦ rw e (e, s)
  | inr e ↦ rw e (
    insert_by_path-Below y.path x ys (text_leb_total x.path y.path e) s.0,
    insert_by_path-IsSorted x ys s.1,
  )
]

insert_by_path-perm : (x : FileInfo) (xs : List FileInfo) → Perm (insert_by_path x xs) (x ∷ xs)
unfolding insert_by_path
insert_by_path-perm x [] = Perm.refl (x ∷ [])
insert_by_path-perm x (y ∷ ys) = elim (Bool-cases (text_leb x.path y.path)) [
  | inl e ↦ rw e (Perm.refl (x ∷ y ∷ ys))
  | inr e ↦ rw e (Perm.trans (Perm.cons y (insert_by_path-perm x ys)) (Perm.swap x y ys))
]

sort_by_path-IsSorted : (xs : List FileInfo) → IsSorted (sort_by_path xs)
unfolding sort_by_path
sort_by_path-IsSorted [] = tt
sort_by_path-IsSorted (x ∷ xs) =
    insert_by_path-IsSorted x (sort_by_path xs) (sort_by_path-IsSorted xs)

sort_by_path-perm : (xs : List FileInfo) → Perm (sort_by_path xs) xs
unfolding sort_by_path
sort_by_path-perm [] = Perm.refl []
sort_by_path-perm (x ∷ xs) =
    Perm.trans (insert_by_path-perm x (sort_by_path xs)) (Perm.cons x (sort_by_path-perm xs))

-- The entry that a listing shows for an item of the walk: a directory for a common prefix, a file for
-- a blob that is no directory marker, with its size and time where it has them.
abbrev pub IsEntryOf : Text → Item → FileInfo → Type 0
IsEntryOf prefix (blob_prefix name) info =
    info ≡ record { path = from_blob_key prefix name; is_dir = true; size = 0; modified_at = [] }
IsEntryOf prefix (blob name size modified) info =
    (ends_with name slash ≡ false)
    × (info.path ≡ from_blob_key prefix name)
    × (info.is_dir ≡ false)
    × (((n : ℕ) → size ≡ some n → info.size ≡ n) × (size ≡ none → info.size ≡ 0))
    × (((t : Text) → modified ≡ some t → info.modified_at ≡ t)
        × (modified ≡ none → info.modified_at ≡ []))

abbrev pub IsMarker : Item → Type 0
IsMarker (blob_prefix name) = ⊥
IsMarker (blob name size modified) = ends_with name slash ≡ true

-- The walk's items that have an entry, in their order, each with its own.
abbrev pub AreEntriesOf : Text → List Item → List FileInfo → Type 0
AreEntriesOf prefix [] infos = infos ≡ []
AreEntriesOf prefix (item ∷ items) infos =
    ((info : FileInfo) × (rest : List FileInfo) × (infos ≡ info ∷ rest)
      × IsEntryOf prefix item info
      × AreEntriesOf prefix items rest)
    ⊎ (IsMarker item × AreEntriesOf prefix items infos)

ls_entries-AreEntriesOf :
    (prefix : Text) (items : List Item) → AreEntriesOf prefix items (ls_entries prefix items)
unfolding ls_entries
ls_entries-AreEntriesOf prefix [] = refl
ls_entries-AreEntriesOf prefix (blob_prefix name ∷ items) =
    inl (_, ls_entries prefix items, refl, refl, ls_entries-AreEntriesOf prefix items)
ls_entries-AreEntriesOf prefix (blob name size modified ∷ items) =
    let rest = ls_entries-AreEntriesOf prefix items in
    elim (Bool-cases (ends_with name slash)) [
      | inl e ↦ rw e (inr (refl, rest))
      | inr e ↦ rw e (
          inl (
            _,
            ls_entries prefix items,
            refl,
            (
              refl,
              refl,
              refl,
              ((λ n h. ap (λ o. or_else o 0) h), λ h. ap (λ o. or_else o 0) h),
              ((λ t h. ap (λ o. or_else o []) h), λ h. ap (λ o. or_else o []) h),
            ),
            rest,
          ))
    ]

-- The entries of `ls` come in the order of their paths, and up to that order they are: a directory for
-- each common prefix of the walk, and a file, with its size and its time, for each blob that is no
-- directory marker.
pub ls_result-IsSorted :
    (items : List Item) (prefix : Text)
    → IsSorted (ls_result items prefix)
      × ((entries : List FileInfo) × AreEntriesOf prefix items entries
          × Perm (ls_result items prefix) entries)
unfolding ls_result
ls_result-IsSorted items prefix = (
  sort_by_path-IsSorted (ls_entries prefix items),
  (
    ls_entries prefix items,
    ls_entries-AreEntriesOf prefix items,
    sort_by_path-perm (ls_entries prefix items),
  ),
)
