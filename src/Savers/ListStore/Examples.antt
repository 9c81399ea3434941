-- ===== src/Savers/ListStore/Examples.antt =====
-- The theorems about the saver at a store that is a list of items.
use langchain_azure.Base.{
  Bool, true, false, ℕ, ◌≤◌, none, some, List, [], ◌∷◌, String, ◌≡◌, refl, arith, nat_eq, codes_eq,
  string_eq, if◌then◌else◌, ◌==◌, length, In, All, ◌⊎◌, map, Option, inr,
}
use langchain_azure.Base.Words.{Text, codes}
use langchain_azure.Base.Integer.{ℤ, pos, negsuc}
use langchain_azure.Checkpoints.Config.{or_default, lookup, text, Config}
use langchain_azure.Base.Format.{show_number}
use langchain_azure.Savers.Keys.{
  write_key, store_name, max_store_name_length, store_name_bounded, checkpoint_key,
  parse_checkpoint_key, parse_checkpoint_key-checkpoint_key,
}
use langchain_azure.Savers.Store.{write_item, SerializedValue, checkpoint_item}
use langchain_azure.Savers.Saver.{
  WriteRecord, config_of, thread_and_namespace, done, Special, collect_keys,
}
use langchain_azure.Savers.Reads.{aget_tuple, tuple_at, checkpoint_tags}
use langchain_azure.Savers.Listings.{alist}
use langchain_azure.Savers.Writes.{value_of, Run, put_writes, aput, aput_writes, adelete_thread}
use langchain_azure.Savers.Paging.{collect_keys_all}
use langchain_azure.Savers.Latest.{is_in, id_in, IsUpper, aget_tuple-takes_greatest}
use mathlib.Core.List.{Perm}
use langchain_azure.Savers.Sorted.{IsOrdered}
use langchain_azure.Savers.RoundTrip.{IsParent, put_state, aget_tuple-aput}
use langchain_azure.Savers.Limits.{cut, alist_limited}
use langchain_azure.Savers.Retries.{aput_writes-retry}
use langchain_azure.Savers.FirstWrites.{IsNegative, ordinary_key, aput_writes-first_wins}
use langchain_azure.Savers.Deletion.{adelete_thread-removes_items}
use langchain_azure.Savers.ListStore.{
  one_byte, numbers, numbers-IsCodec, Entry, find, remove, matching, has_tags, listed_store,
  listed_store_law,
}

abbrev digest_text : Text → Text
digest_text name = codes "0123456789abcdef0123456789abcdef0123456789abcdef0123456789abcdef"

store_name_bounded_example :
    length (store_name digest_text (codes "langgraph") "thread") ≤ max_store_name_length
store_name_bounded_example =
    store_name_bounded digest_text (codes "langgraph") "thread" (λ name. refl)

parse_checkpoint_key_example :
    parse_checkpoint_key (checkpoint_key "outer/inner" "1f0a") ≡ (codes "outer/inner", codes "1f0a")
unfolding nat_eq
parse_checkpoint_key_example = parse_checkpoint_key-checkpoint_key "outer/inner" "1f0a" refl

abbrev number : ℕ → SerializedValue
number n = record { type_name = "int"; encoded = n ∷ [] }

abbrev checkpoint_entry : String → ℕ → Entry
checkpoint_entry id n = (
  checkpoint_key "" id,
  checkpoint_item id "" (number n) (number 1) "",
  ("kind", "checkpoint") ∷ ("ns", "") ∷ [],
)

-- Created in another order than that of the ids.
abbrev stored : List Entry
stored = checkpoint_entry "b" 2 ∷ checkpoint_entry "c" 3 ∷ checkpoint_entry "a" 1 ∷ []

abbrev thread : Config
thread = record { configurable = ("thread_id", text "t") ∷ []; rest = [] }

collect_keys_example :
    collect_keys listed_store 4 stored (checkpoint_tags "") true none
    ≡ done (checkpoint_key "" "b" ∷ checkpoint_key "" "c" ∷ checkpoint_key "" "a" ∷ [])
unfolding listed_store_law matching has_tags string_eq
collect_keys_example =
    collect_keys_all listed_store listed_store_law 4 stored (checkpoint_tags "") true none
      (omega arith)

aget_tuple-takes_greatest_example :
    ((aget_tuple numbers listed_store 4 stored thread ≡ done none)
      × All (λ key. is_in "" key ≡ false) (matching stored (checkpoint_tags "")))
    ⊎ ((key : Text) × In key (matching stored (checkpoint_tags ""))
        × (is_in "" key ≡ true)
        × IsUpper "" (id_in key) (matching stored (checkpoint_tags ""))
        × (aget_tuple numbers listed_store 4 stored thread
            ≡ tuple_at numbers listed_store 4 stored "t" (find stored key)))
unfolding listed_store_law matching has_tags string_eq thread_and_namespace
aget_tuple-takes_greatest_example =
    aget_tuple-takes_greatest numbers listed_store listed_store_law 4 stored thread "t" "" refl refl
      (omega arith)

abbrev child : Config
child = config_of "t" "" "c"

abbrev write_entry : String → ℤ → ℕ → Entry
write_entry task index n = (
  write_key "" "d" task index,
  write_item "d" "" task "" index "messages" (number n),
  ("kind", "write") ∷ ("ns", "") ∷ ("ckpt", "d") ∷ [],
)

-- Writes of the checkpoint that come before it, listed against their order.
abbrev with_writes : List Entry
with_writes =
    write_entry "b" (pos 0) 8 ∷ write_entry "a" (pos 1) 7 ∷ write_entry "a" (pos 0) 6 ∷ stored

abbrev write_of_task : String → ℤ → ℕ → WriteRecord
write_of_task task index n = record {
  task_id = task;
  index = index;
  channel = "messages";
  value = number n;
}

abbrev records : List WriteRecord
records =
    write_of_task "b" (pos 0) 8 ∷ write_of_task "a" (pos 1) 7 ∷ write_of_task "a" (pos 0) 6 ∷ []

abbrev put_d : List Entry
put_d =
    put_state numbers listed_store with_writes child (record { id = "d"; whole = 4 }) 2 ("t", "")

aget_tuple-aput_example :
    (aput numbers listed_store with_writes child (record { id = "d"; whole = 4 }) 2
      ≡ done (put_d, config_of "t" "" "d"))
    × ((sorted : List WriteRecord) × (parent : Option Config) × IsOrdered sorted
        × Perm sorted records
        × IsParent "t" "" (some "c") parent
        × (aget_tuple numbers listed_store 4 put_d (config_of "t" "" "d")
            ≡ done (
                some record {
                  config = config_of "t" "" "d";
                  checkpoint = 4;
                  metadata = 2;
                  parent_config = parent;
                  pending_writes =
                      map (λ w. (w.task_id, w.channel, one_byte w.value.encoded)) sorted;
                })))
unfolding listed_store_law matching has_tags string_eq thread_and_namespace remove codes_eq
    checkpoint_key write_key find show_number
aget_tuple-aput_example =
    aget_tuple-aput numbers numbers-IsCodec listed_store listed_store_law 4 with_writes child
      (record { id = "d"; whole = 4 }) 2 "t" "" records refl (cc) (omega arith)
      (inr (
        write_of_task "b" (pos 0) 8,
        "d",
        "",
        "",
        write_of_task "a" (pos 1) 7 ∷ write_of_task "a" (pos 0) 6 ∷ [],
        refl,
        refl,
        inr (
          write_of_task "a" (pos 1) 7,
          "d",
          "",
          "",
          write_of_task "a" (pos 0) 6 ∷ [],
          refl,
          refl,
          inr (write_of_task "a" (pos 0) 6, "d", "", "", [], refl, refl, refl),
        ),
      ))

alist_limited_example :
    alist numbers listed_store 4 stored (some thread) [] none (some (pos 2))
    ≡ cut 2 (alist numbers listed_store 4 stored (some thread) [] none none)
alist_limited_example =
    alist_limited numbers listed_store 4 stored (some thread) none [] 2 (omega arith)

abbrev outputs : List (String × ℕ)
outputs = ("messages", 5) ∷ ("__error__", 6) ∷ []

abbrev write_special : Special
write_special channel = if channel == "__error__" then some (negsuc 0) else none

abbrev run : Run
run = record { namespace = ""; checkpoint_id = "c"; task_id = "task"; task_path = "" }

aput_writes-retry_example :
    (u : List Entry) × (aput_writes numbers listed_store write_special
        (put_writes numbers listed_store write_special run stored 0 outputs)
        child
        outputs
        "task"
        ""
      ≡ done u)
    × ((k : Text)
        → find u k ≡ find (put_writes numbers listed_store write_special run stored 0 outputs) k)
unfolding aput_writes string_eq lookup
aput_writes-retry_example =
    aput_writes-retry numbers listed_store listed_store_law write_special stored
      (put_writes numbers listed_store write_special run stored 0 outputs) child outputs "task" ""
      refl

adelete_thread-removes_items_example :
    (left : List Entry) × (adelete_thread listed_store 4 (some stored) "t" ≡ done (some left))
    × ((k : Text) → find left k ≡ none)
unfolding listed_store_law matching has_tags string_eq
adelete_thread-removes_items_example =
    adelete_thread-removes_items listed_store listed_store_law 4 stored "t" (cc) refl (omega arith)

negative_or_none :
    (b : Bool) (i : ℤ) → (if b then some (negsuc 0) else none) ≡ some i → (k : ℕ) × (i ≡ negsuc k)
negative_or_none true i h = (0, ground arith)
negative_or_none false i h = absurd (cc)

special-IsNegative : IsNegative write_special
special-IsNegative channel i h = negative_or_none (channel == "__error__") i h

aput_writes-first_wins_example :
    (t : List Entry) × (aput_writes numbers listed_store write_special stored child
        (("messages", 5) ∷ ("state", 7) ∷ [])
        "task"
        ""
      ≡ done t)
    × (find t (ordinary_key numbers listed_store listed_store_law write_special run 1)
        ≡ some (
            or_default (value_of numbers listed_store write_special run 1 "state" 7) (
              find stored
                (ordinary_key numbers listed_store listed_store_law write_special run 1))))
unfolding aput_writes string_eq lookup
aput_writes-first_wins_example =
    aput_writes-first_wins numbers listed_store listed_store_law write_special stored child "task"
      "" run (("messages", 5) ∷ []) [] "state" 7 special-IsNegative refl refl
