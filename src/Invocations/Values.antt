-- ===== src/Invocations/Values.antt =====
-- JSON values, as the records hold them. A float stands for a time in whole seconds.
use langchain_azure.Base.{
  ℕ, Bool, true, false, Option, none, some, if◌then◌else◌, ◌==◌, string_eq, String, ◌≡◌, refl,
  arith,
}
use langchain_azure.Base.Integer.{ℤ, pos}

mutual
  pub data Value : Type 0 where
    null : Value
    bool : Bool → Value
    int : ℤ → Value
    float : ℕ → Value
    str : String → Value
    array : Items → Value
    dict : Fields → Value

  pub data Items : Type 0 where
    nil : Items
    cons : Value → Items → Items

  -- A dictionary in insertion order.
  pub data Fields : Type 0 where
    end : Fields
    field : String → Value → Fields → Fields

-- d.get(key); a missing key and None are told apart by `has` only.
unfoldable pub get : Fields → String → Value
get end k = null
get (field j v d) k = if k == j then v else get d k

-- key in d
unfoldable pub has : Fields → String → Bool
has end k = false
has (field j v d) k = if k == j then true else has d k

-- d[key] = v
unfoldable pub put : Fields → String → Value → Fields
put end k v = field k v end
put (field j w d) k v = if k == j then field j v d else field j w (put d k v)

-- d.setdefault(key, v)
unfoldable pub set_default : Fields → String → Value → Fields
set_default d k v = if has d k then d else put d k v

pub get-put :
    (d : Fields) (k j : String) (v : Value) → get (put d k v) j ≡ (if j == k then v else get d j)
unfolding get put
get-put end k j v = refl
get-put (field i w d) k j v = ground (arith, get-put d k j v)

pub get_missing : (d : Fields) (k : String) → has d k ≡ false → get d k ≡ null
unfolding get has
get_missing end k h = refl
get_missing (field i w d) k h = ground (arith, get_missing d k)

-- A default of None does not show in `get`.
pub get-set_default : (d : Fields) (k j : String) → get (set_default d k null) j ≡ get d j
unfolding set_default
get-set_default d k j = ground (arith, get-put d k j null, get_missing d k)

-- isinstance(value, (int, float)), where a bool is an int
unfoldable pub number_of : Value → Option ℤ
number_of (bool true) = some (pos 1)
number_of (bool false) = some (pos 0)
number_of (int n) = some n
number_of (float n) = some (pos n)
number_of v = none

-- value if isinstance(value, int) else default
unfoldable pub int_or : Value → ℤ → ℤ
int_or (bool true) d = pos 1
int_or (bool false) d = pos 0
int_or (int n) d = n
int_or v d = d

-- value if isinstance(value, dict) else None
unfoldable pub as_dict : Value → Option Fields
as_dict (dict d) = some d
as_dict v = none
