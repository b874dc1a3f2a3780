-- ===== src/Conn/Actions.antt =====
-- loomd/src/conn.rs: methods that change the driver and may fail. What was done before a failure
-- stays done, so the state comes back beside the error too.
use loom_host.Base.{Result, ok, err}

abbrev pub Io : Type 0 → Type 0 → Type 0 → Type 0
Io S E A = S → Result A E × S

module _ {S E A : Type 0} where
  abbrev pub pure : A → Io S E A
  pure a s = (ok a, s)

  abbrev pub raise : E → Io S E A
  raise e s = (err e, s)

module _ {S E A B : Type 0} where
  abbrev pub after : Result A E → (A → Io S E B) → Io S E B
  after (ok a) f s = f a s
  after (err e) f s = (err e, s)

  infixl 10 ◌>>=◌ ◌>>◌
  abbrev pub ◌>>=◌ : Io S E A → (A → Io S E B) → Io S E B
  ◌>>=◌ m f s = let (r, s') = m s in after r f s'

  abbrev pub ◌>>◌ : Io S E A → Io S E B → Io S E B
  m >> n = m >>= λ _. n
