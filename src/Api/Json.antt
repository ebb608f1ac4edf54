-- ===== src/Api/Json.antt =====
-- The values that the API puts into log lines and responses: Python's None, bool, int, str, list,
-- tuple, and dict with texts as keys, in the order of insertion.
use honor.Common.{ℕ, String, Bool, List, [], ◌∷◌}
use honor.Common.Int.{ℤ}

mutual
  pub data Value : Type 0 where
    null : Value
    boolean : Bool → Value
    integer : ℤ → Value
    text : List ℕ → Value
    list : Items → Value
    tuple : Items → Value
    dict : Fields → Value

  pub data Items : Type 0 where
    nil : Items
    cons : Value → Items → Items

  pub data Fields : Type 0 where
    end : Fields
    field : String → Value → Fields → Fields

-- `list(d)`
unfoldable pub keys : Fields → List String
keys end = []
keys (field k v fs) = k ∷ keys fs
