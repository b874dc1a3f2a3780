-- ===== src/Session/Body.antt =====
-- loomd/src/session.rs: reading a message body.
use loom_host.Base.{ℕ, Bool, false, ◌||◌, ◌&&◌, if◌then◌else◌, Option, none, some}
use loom_host.Base.Int.{ℤ, pos, eqb_ℤ}
use loom_host.Cbor.Values.{
  Value, Items, Entries, int, array, float, nil, cons, end, entry, get_item,
}

-- The closures that `find_map` is given: what an entry says under the key `k`.
abbrev pub int_at : ℤ → Value → Value → Option ℤ
int_at k (int i) (int v) = if eqb_ℤ i k then some v else none
int_at k _ _ = none

abbrev as_some_int : Option Value → Option ℤ
as_some_int (some (int v)) = some v
as_some_int _ = none

abbrev pub pair_at : ℤ → ℕ → Value → Value → Option ℤ
pair_at k idx (int i) (array items) = if eqb_ℤ i k then as_some_int (get_item items idx) else none
pair_at k idx _ _ = none

abbrev pub float_at : ℤ → Value → Value → Option ℕ
float_at k (int i) (float v) = if eqb_ℤ i k then some v else none
float_at k _ _ = none

-- `iter().find_map(f)`
abbrev pub find_map {ℓ} : {A : Type ℓ} → (Value → Value → Option A) → Entries → Option A
find_map f end = none
find_map f (entry k v es) = elim (f k v) [ some a ↦ some a | none ↦ find_map f es ]

unfoldable pub int_key : Entries → ℤ → Option ℤ
int_key body key = find_map (int_at key) body

unfoldable pub pair_elem : Entries → ℤ → ℕ → Option ℤ
pair_elem body key idx = find_map (pair_at key idx) body

unfoldable pub float_key : Entries → ℤ → Option ℕ
float_key body key = find_map (float_at key) body

abbrev is_int : ℕ → Value → Bool
is_int codec (int i) = eqb_ℤ i (pos codec)
is_int codec _ = false

abbrev any_item : (Value → Bool) → Items → Bool
any_item p nil = false
any_item p (cons v vs) = p v || any_item p vs

abbrev offers_at : ℕ → Value → Value → Bool
offers_at codec (int i) (array items) = eqb_ℤ i (pos 2) && any_item (is_int codec) items
offers_at codec _ _ = false

-- Whether HELLO key 2 holds a codec.
unfoldable pub offers_codec : Entries → ℕ → Bool
offers_codec end codec = false
offers_codec (entry k v es) codec = offers_at codec k v || offers_codec es codec

-- A value that holds two integers.
abbrev pub pair_of : ℤ → ℤ → Value
pair_of a b = array (cons (int a) (cons (int b) nil))
