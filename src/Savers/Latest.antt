-- ===== src/Savers/Latest.antt =====
-- The checkpoint that a read without an id takes.
use langchain_azure.Base.{
  ℕ, ◌<◌, Bool, true, false, Option, none, some, List, [], ◌∷◌, String, ◌≡◌, refl, sym, ap, ◌∙◌,
  subst, arith, length, All, In, Bool-cases, Option-cases, inl, inr, ◌⊎◌, if◌then◌else◌, not,
  string_eq, codes_eq,
}
use langchain_azure.Base.Words.{Text, text_leb, text_leb_refl, text_leb_trans, text_leb_total}
use langchain_azure.Checkpoints.Config.{Config}
use langchain_azure.Savers.Keys.{parse_checkpoint_key}
use langchain_azure.Savers.Store.{Codec, Service, IsService}
use langchain_azure.Savers.Saver.{done, thread_and_namespace}
use langchain_azure.Savers.Reads.{
  truthy, newer, in_namespace, consider, latest, checkpoint_tags, tuple_at, aget_tuple,
}
use langchain_azure.Savers.Paging.{collect_keys_all}

-- The id in a key.
abbrev pub id_in : Text → Text
id_in key = (parse_checkpoint_key key).1

abbrev pub is_in : String → Text → Bool
is_in ns key = in_namespace ns (parse_checkpoint_key key)

-- No id of the namespace is greater.
abbrev pub IsUpper : String → Text → List Text → Type 0
IsUpper ns id keys = All (λ key. is_in ns key ≡ true → text_leb (id_in key) id ≡ true) keys

-- What `best` says is covered by `id`.
abbrev Covers : Option (Text × Text) → Text → Type 0
Covers none id = Unit
Covers (some (best_id, best_key)) id = text_leb best_id id ≡ true

-- What the loop may end with, from `best`.
abbrev Ends : String → Option (Text × Text) → List Text → Option (Text × Text) → Type 0
Ends ns best keys none = (best ≡ none) × All (λ key. is_in ns key ≡ false) keys
Ends ns best keys (some (id, key)) =
    Covers best id
    × IsUpper ns id keys
    × ((best ≡ some (id, key)) ⊎ (In key keys × (is_in ns key ≡ true) × (id_in key ≡ id)))

newer-Covers :
    (best : Option (Text × Text)) (id key last : Text)
    → Covers (newer best id key) last
    → Covers best last × (text_leb id last ≡ true)
newer-Covers none id key last h = (tt, h)
newer-Covers (some (b, k)) id key last h =
    (let split = Bool-cases (text_leb id b) in
      elim split [
        | inl e ↦
            (let g = subst (λ x. Covers (if not x then some (id, key) else some (b, k)) last) e h in
              (g, text_leb_trans id b last e g))
        | inr e ↦
            (let g = subst (λ x. Covers (if not x then some (id, key) else some (b, k)) last) e h in
              (text_leb_trans b id last (text_leb_total id b e) g, g))
      ])

newer-source :
    (best : Option (Text × Text)) (id key : Text) (r : Text × Text)
    → newer best id key ≡ some r
    → (best ≡ some r) ⊎ ((key ≡ r.1) × (id ≡ r.0))
newer-source none id key r h = inr (ground arith)
newer-source (some (b, k)) id key r h = elim (Bool-cases (text_leb id b)) [
  | inl e ↦ inl (ground arith)
  | inr e ↦ inr (ground arith)
]

newer-some : (best : Option (Text × Text)) (id key : Text) → newer best id key ≡ none → ⊥
newer-some none id key h = absurd (cc)
newer-some (some (b, k)) id key h = elim (Bool-cases (text_leb id b)) [
  | inl e ↦ ground arith
  | inr e ↦ ground arith
]

-- One key more in front.
Ends-key :
    (ns : String) (best : Option (Text × Text)) (key : Text) (keys : List Text)
    (r : Option (Text × Text))
    → Ends ns (consider ns best key) keys r
    → Ends ns best (key ∷ keys) r
Ends-key ns best key keys none h = elim (Bool-cases (is_in ns key)) [
  | inl e ↦ absurd (
      newer-some best (id_in key) key
        (subst (λ b. (if b then newer best (id_in key) key else best) ≡ none) e h.0))
  | inr e ↦ (subst (λ b. (if b then newer best (id_in key) key else best) ≡ none) e h.0, (e, h.1))
]
Ends-key ns best key keys (some (id, found)) (covers, upper, source) =
    elim (Bool-cases (is_in ns key)) [
      | inl e ↦
          (let c =
              newer-Covers best (id_in key) key id (
                subst (λ b. Covers (if b then newer best (id_in key) key else best) id) e covers) in
            (
              c.0,
              ((λ q. c.1), upper),
              elim source [
                | inl same ↦
                    elim (newer-source best (id_in key) key (id, found)
                      (subst
                        (λ b. (if b then newer best (id_in key) key else best) ≡ some (id, found)) e
                        same)) [
                          | inl old ↦ inl old
                          | inr new ↦ inr (
                            inl (sym new.0),
                            subst (λ k. is_in ns k ≡ true) new.0 e,
                            ap id_in (sym new.0) ∙ new.1,
                          )
                        ]
                | inr later ↦ inr (inr later.0, later.1, later.2)
              ],
            ))
      | inr e ↦ (
        subst (λ b. Covers (if b then newer best (id_in key) key else best) id) e covers,
        ((λ q. absurd (cc)), upper),
        elim source [
          | inl same ↦ inl (
              subst (λ b. (if b then newer best (id_in key) key else best) ≡ some (id, found)) e
                same)
          | inr later ↦ inr (inr later.0, later.1, later.2)
        ],
      )
    ]

latest-Ends :
    (ns : String) (best : Option (Text × Text)) (keys : List Text)
    → Ends ns best keys (latest ns best keys)
unfolding latest
latest-Ends ns none [] = (refl, tt)
latest-Ends ns (some (id, key)) [] = (text_leb_refl id, tt, inl refl)
latest-Ends ns best (key ∷ keys) =
    Ends-key ns best key keys (latest ns (consider ns best key) keys)
      (latest-Ends ns (consider ns best key) keys)

-- A read whose config names a thread and no checkpoint takes, given more fuel than there are listed
-- keys, the item of the listed key of its namespace whose id is greatest, or finds nothing where no
-- listed key is of the namespace.
pub aget_tuple-takes_greatest :
    (C : Codec) (F : Service) (law : IsService F) (fuel : ℕ) (s : F.State) (config : Config)
    (thread_id ns : String)
    → thread_and_namespace config ≡ some (thread_id, ns)
    → truthy (C.get_checkpoint_id config) ≡ none
    → length (law.rest s (checkpoint_tags ns) true none) < fuel
    → ((aget_tuple C F fuel s config ≡ done none)
        × All (λ key. is_in ns key ≡ false) (law.rest s (checkpoint_tags ns) true none))
      ⊎ ((key : Text) × In key (law.rest s (checkpoint_tags ns) true none)
          × (is_in ns key ≡ true)
          × IsUpper ns (id_in key) (law.rest s (checkpoint_tags ns) true none)
          × (aget_tuple C F fuel s config ≡ tuple_at C F fuel s thread_id (F.get_item s key)))
unfolding aget_tuple
aget_tuple-takes_greatest C F law fuel s config thread_id ns at no_id enough =
    let keys = law.rest s (checkpoint_tags ns) true none in
    let listed = collect_keys_all F law fuel s (checkpoint_tags ns) true none enough in
    elim (Option-cases (latest ns none keys)) [
      | inl e ↦ inl (
        rw at (rw no_id (rw listed (rw e))),
        (subst (λ r. Ends ns none keys r) e (latest-Ends ns none keys)).1,
      )
      | inr ((id, key), e) ↦
          (let (covers, upper, source) =
              subst (λ r. Ends ns none keys r) e (latest-Ends ns none keys) in
            elim source [
              | inl never ↦ absurd (cc)
              | inr (is_listed, inside, same) ↦ inr (
                key,
                is_listed,
                inside,
                subst (λ i. IsUpper ns i keys) (sym same) upper,
                rw at (rw no_id (rw listed (rw e))),
              )
            ])
    ]
