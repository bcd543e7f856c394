-- ===== src/Base/Effects.antt =====
-- Stateful C++ code that may throw: what it changed before the exception stays changed.
use mohpc.Base.Results.{Result, ok, err}

abbrev pub Effect : Type 0 → Type 0 → Type 0 → Type 0
Effect S E A = S → Result E A × S

abbrev pub pure : {S E A : Type 0} → A → Effect S E A
pure a s = (ok a, s)

abbrev pub throw : {S E A : Type 0} → E → Effect S E A
throw e s = (err e, s)

abbrev pub modify : {S E : Type 0} → (S → S) → Effect S E (Unit {0})
modify f s = (ok tt, f s)

abbrev pub read_state : {S E : Type 0} → Effect S E S
read_state s = (ok s, s)

-- Go on with the value, or pass the exception on.
abbrev pub resume : {S E A B : Type 0} → Result E A → S → (A → Effect S E B) → Result E B × S
resume (ok a) s f = f a s
resume (err e) s f = (err e, s)

infixl 5 ◌>>=◌ ◌>>◌
abbrev pub ◌>>=◌ : {S E A B : Type 0} → Effect S E A → (A → Effect S E B) → Effect S E B
◌>>=◌ m f s = let (r, s') = m s in resume r s' f

abbrev pub ◌>>◌ : {S E B : Type 0} → Effect S E (Unit {0}) → Effect S E B → Effect S E B
◌>>◌ m k = m >>= λ _. k
