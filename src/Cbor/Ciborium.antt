-- ===== src/Cbor/Ciborium.antt =====
-- loom-proto/src/cbor.rs: `decode`, which lowers what the `ciborium` crate reads. The crate's reader
-- is a parameter; its values are those that `from_ciborium` matches on, `other` for the rest.
use loom_host.Base.{ℕ, Bool, List, Option, none, some}
use loom_host.Base.Int.{ℤ}
use loom_host.Cbor.Values.{
  Value, Items, Entries, int, bytes, text, array, dict, bool, float, null, nil, cons, end, entry,
}

mutual
  pub data Ciborium : Type 0 where
    c_integer : ℤ → Ciborium
    c_bytes : List ℕ → Ciborium
    c_float : ℕ → Ciborium
    c_text : List ℕ → Ciborium
    c_bool : Bool → Ciborium
    c_null : Ciborium
    c_array : CiboriumItems → Ciborium
    c_map : CiboriumEntries → Ciborium
    c_tag : ℕ → Ciborium → Ciborium
    c_other : Ciborium

  pub data CiboriumItems : Type 0 where
    c_nil : CiboriumItems
    c_cons : Ciborium → CiboriumItems → CiboriumItems

  pub data CiboriumEntries : Type 0 where
    c_end : CiboriumEntries
    c_entry : Ciborium → Ciborium → CiboriumEntries → CiboriumEntries

unfoldable mutual
  pub from_ciborium : Ciborium → Value
  from_ciborium (c_integer i) = int i
  from_ciborium (c_bytes b) = bytes b
  from_ciborium (c_float v) = float v
  from_ciborium (c_text s) = text s
  from_ciborium (c_bool b) = bool b
  from_ciborium c_null = null
  from_ciborium (c_array a) = array (from_items a)
  from_ciborium (c_map m) = dict (from_entries m)
  from_ciborium (c_tag n v) = from_ciborium v
  from_ciborium c_other = null

  pub from_items : CiboriumItems → Items
  from_items c_nil = nil
  from_items (c_cons v vs) = cons (from_ciborium v) (from_items vs)

  pub from_entries : CiboriumEntries → Entries
  from_entries c_end = end
  from_entries (c_entry k v es) = entry (from_ciborium k) (from_ciborium v) (from_entries es)

-- `none` is `Error::ProtocolViolation`.
unfoldable pub decode : (List ℕ → Option Ciborium) → List ℕ → Option Value
decode from_reader b = elim (from_reader b) [ none ↦ none | some v ↦ some (from_ciborium v) ]
