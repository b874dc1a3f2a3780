-- ===== src/Cbor/Values.antt =====
-- loom-proto/src/cbor.rs: `Value` and its accessors. A vector of values is `Items`, a vector of
-- pairs is `Entries`.
use loom_host.Base.{ℕ, suc, Bool, List, Option, none, some}
use loom_host.Base.Int.{ℤ}

mutual
  pub data Value : Type 0 where
    int : ℤ → Value
    bytes : List ℕ → Value
    text : List ℕ → Value
    array : Items → Value
    dict : Entries → Value
    bool : Bool → Value
    float : ℕ → Value
    null : Value

  pub data Items : Type 0 where
    nil : Items
    cons : Value → Items → Items

  pub data Entries : Type 0 where
    end : Entries
    entry : Value → Value → Entries → Entries

unfoldable pub as_int : Value → Option ℤ
as_int (int i) = some i
as_int _ = none

unfoldable pub as_map : Value → Option Entries
as_map (dict m) = some m
as_map _ = none

unfoldable pub as_array : Value → Option Items
as_array (array a) = some a
as_array _ = none

abbrev pub count_items : Items → ℕ
count_items nil = 0
count_items (cons v vs) = suc (count_items vs)

abbrev pub count_entries : Entries → ℕ
count_entries end = 0
count_entries (entry k v es) = suc (count_entries es)

-- `items.get(idx)`
abbrev pub get_item : Items → ℕ → Option Value
get_item nil i = none
get_item (cons v vs) ℕ.zero = some v
get_item (cons v vs) (suc i) = get_item vs i

abbrev pub append_entries : Entries → Entries → Entries
append_entries end es = es
append_entries (entry k v xs) es = entry k v (append_entries xs es)
