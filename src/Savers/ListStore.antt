-- ===== src/Savers/ListStore.antt =====
-- A store that is a list of items, and a codec of numbers.
mod Examples
use langchain_azure.Base.{
  ℕ, zero, suc, ◌+◌, ◌≤◌, Bool, true, false, Option, none, some, List, [], ◌∷◌, ◌++◌, String, ◌≡◌,
  ◌≢◌, refl, sym, ap, ◌∙◌, subst, arith, Bool-cases, inl, inr, if◌then◌else◌, ◌==◌, ◌&&◌, not,
  nat_eq, codes_eq, string_eq, take, drop, length, In, eq_sound, All,
}
use langchain_azure.Base.Words.{Text, codes}
use langchain_azure.Base.Integer.{ℤ, pos, negsuc}
use langchain_azure.Checkpoints.Config.{Setting, null, text, object, Dict, Config, lookup, get_or}
use langchain_azure.Savers.Store.{
  Codec, IsCodec, SerializedValue, ItemValue, checkpoint_item, write_item, Tags, Page, Service,
  IsService,
}
use langchain_azure.Savers.Saver.{text_in, config_of, done}

abbrev id_text : Option Setting → Option String
id_text none = none
id_text (some v) = text_in v

abbrev one_byte : Text → ℕ
one_byte [] = 0
one_byte (n ∷ t) = n

abbrev numbers : Codec
numbers = record {
  Object = ℕ;
  Bytes = ℕ;
  dumps_typed = λ n. ("int", n);
  loads_typed = λ p. p.1;
  b64encode = λ n. n ∷ [];
  b64decode = one_byte;
  field = λ n name. if name == "step" then some n else none;
  is_none = λ n. false;
  same = λ a b. a == b;
  str_of = λ n. "number";
  get_checkpoint_metadata = λ config n. n;
  get_checkpoint_id = λ config. id_text (lookup config.configurable "checkpoint_id");
}

numbers-IsCodec : IsCodec numbers
numbers-IsCodec = record {
  loads-dumps = λ n. refl;
  decode-encode = λ n. refl;
  get_id = λ rest configurable id h. ap id_text h;
}

abbrev Entry : Type 0
Entry = Text × ItemValue × Tags

find : List Entry → Text → Option ItemValue
find [] j = none
find ((k, v, t) ∷ s) j = if j == k then some v else find s j

remove : List Entry → Text → List Entry
remove [] j = []
remove ((k, v, t) ∷ s) j = let rest = remove s j in if k == j then rest else (k, v, t) ∷ rest

abbrev same_tag : Option String → String → Bool
same_tag none value = false
same_tag (some a) value = a == value

has_tags : Tags → Tags → Bool
unfolding lookup
has_tags t [] = true
has_tags t ((name, value) ∷ query) = same_tag (lookup t name) value && has_tags t query

matching : List Entry → Tags → List Text
unfolding has_tags
matching [] query = []
matching ((k, v, t) ∷ s) query =
    let rest = matching s query in if has_tags t query then k ∷ rest else rest

abbrev offset : Option ℕ → ℕ
offset none = 0
offset (some n) = n

abbrev is_empty : List Text → Bool
is_empty [] = true
is_empty (x ∷ xs) = false

abbrev create : List Entry → Text → ItemValue → Tags → Option ItemValue → Option (List Entry)
create s k v t none = some ((k, v, t) ∷ remove s k)
create s k v t (some w) = none

-- The cursor is the number of keys before it; the order is that of the list.
page : List Entry → Tags → ℕ → Option ℕ → Page ℕ
unfolding matching
page s query limit c =
    let left = drop (offset c) (matching s query) in
    record {
      keys = take limit left;
      has_more = not (is_empty (drop limit left));
      last_id = some (offset c + limit);
    }

abbrev listed_store : Service
listed_store = record {
  State = List Entry;
  Cursor = ℕ;
  get_item = find;
  set_item = λ s k v t. (k, v, t) ∷ remove s k;
  create_item = λ s k v t. create s k v t (find s k);
  delete_item = remove;
  list_keys = λ s query limit desc c. page s query limit c;
  user_isolation = λ s. true;
}

drop_nil : {A : Type 0} (n : ℕ) → drop {A = A} n [] ≡ []
drop_nil zero = refl
drop_nil (suc n) = refl

drop-drop : {A : Type 0} (m n : ℕ) (xs : List A) → drop (m + n) xs ≡ drop n (drop m xs)
drop-drop zero n xs = ap (λ k. drop k xs) (omega arith)
drop-drop (suc m) n [] = drop_nil (suc m + n) ∙ sym (drop_nil n)
drop-drop (suc m) n (x ∷ xs) =
    let shifted : suc m + n ≡ suc (m + n) = omega arith in
    ap (λ k. drop k (x ∷ xs)) shifted ∙ drop-drop m n xs

empty_of : (xs : List Text) → not (is_empty xs) ≡ false → xs ≡ []
empty_of [] h = refl
empty_of (x ∷ xs) h = absurd (cc)

find-remove :
    (s : List Entry) (k j : Text) → find (remove s k) j ≡ (if j == k then none else find s j)
unfolding find remove
find-remove [] k j = ground arith
find-remove ((i, v, t) ∷ s) k j = ground (arith, find-remove s k j)

find_listed : (s : List Entry) (k : Text) (v : ItemValue) → find s k ≡ some v → In k (matching s [])
unfolding find matching has_tags
find_listed [] k v h = absurd (cc)
find_listed ((i, w, t) ∷ s) k v h = elim (Bool-cases (k == i)) [
  | inl e ↦ inl (eq_sound k i e)
  | inr e ↦ inr (find_listed s k v (subst (λ b. (if b then some w else find s k) ≡ some v) e h))
]

create_new_lem :
    (s : List Entry) (k : Text) (v : ItemValue) (t : Tags)
    → find s k ≡ none
    → create s k v t (find s k) ≡ some ((k, v, t) ∷ remove s k)
create_new_lem s k v t h = rw h refl

create_known_lem :
    (s : List Entry) (k : Text) (v w : ItemValue) (t : Tags)
    → find s k ≡ some w
    → create s k v t (find s k) ≡ none
create_known_lem s k v w t h = rw h refl

find_set :
    (s : List Entry) (k j : Text) (v : ItemValue) (t : Tags)
    → find ((k, v, t) ∷ remove s k) j ≡ (if j == k then some v else find s j)
unfolding find
find_set s k j v t = elim (Bool-cases (j == k)) [
  | inl e ↦ rw e refl
  | inr e ↦ rw e (find-remove s k j ∙ rw e refl)
]

abbrev left_after : List Entry → Tags → Option ℕ → List Text
left_after s t c = drop (offset c) (matching s t)

full_page :
    (s : List Entry) (t : Tags) (limit : ℕ) (c : Option ℕ)
    → (page s t limit c).has_more ≡ true
    → (d : ℕ) × ((page s t limit c).last_id ≡ some d)
      × (left_after s t (some d) ≡ drop limit (left_after s t c))
      × (drop limit (left_after s t c) ≢ [])
unfolding page
full_page s t limit c h =
    (offset c + limit, refl, drop-drop (offset c) limit (matching s t), λ p. absurd (cc))

last_page :
    (s : List Entry) (t : Tags) (limit : ℕ) (c : Option ℕ)
    → (page s t limit c).has_more ≡ false
    → drop limit (left_after s t c) ≡ []
unfolding page
last_page s t limit c h = empty_of (drop limit (left_after s t c)) h

keys_of_page :
    (s : List Entry) (t : Tags) (limit : ℕ) (c : Option ℕ)
    → (page s t limit c).keys ≡ take limit (left_after s t c)
unfolding page
keys_of_page s t limit c = refl

listed_store_law : IsService listed_store
listed_store_law = record {
  get-set = find_set;
  create_new = create_new_lem;
  create_known = create_known_lem;
  get-delete = find-remove;
  rest = λ s t desc c. left_after s t c;
  page_keys = λ s t limit desc c. keys_of_page s t limit c;
  page_more = λ s t limit desc c h. full_page s t limit c h;
  page_last = λ s t limit desc c h. last_page s t limit c h;
  listed = λ s desc k v h. find_listed s k v h;
}
