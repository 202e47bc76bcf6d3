-- ===== src/Publication/Exec.antt =====
-- Asynchronous methods over a world `W`, which may throw. What was written before a throw stays
-- written, unless it was written inside a transaction.
use radar_ia.Prelude.{Bool, true, false}
use radar_ia.Publication.Types.{PublicationErrorCode, PersistenceErrorCode}

pub data Exn : Type 0 where
  -- PublicationPersistenceError
  persistence : PersistenceErrorCode → Exn
  -- DiscordPublicationPortError, with its code and `retryable`
  port_error : PublicationErrorCode → Bool → Exn
  -- PublicationContentError
  content : Exn
  -- PublicationOrchestrationError
  orchestration : Exn
  -- any other exception: a database outage, a bug of a library
  other : Exn

pub data Result (A : Type 0) : Type 0 where
  ok : A → Result A
  err : Exn → Result A

abbrev pub M : Type 0 → Type 0 → Type 0
M W A = W → Result A × W

module _ {W A : Type 0} where
  abbrev pub pure : A → M W A
  pure a w = (ok a, w)

  abbrev pub throw : Exn → M W A
  throw e w = (err e, w)

  abbrev pub gets : (W → A) → M W A
  gets f w = (ok (f w), w)

  abbrev pub roll_back : W → Result A × W → Result A × W
  roll_back w (ok a, w') = (ok a, w')
  roll_back w (err e, w') = (err e, w)

  -- `prisma.$transaction`: a throw undoes the writes
  abbrev pub transaction : M W A → M W A
  transaction m w = roll_back w (m w)

  -- `try { m } catch`, with the exception as a value
  abbrev pub attempt : M W A → M W (Result A)
  attempt m w = let (r, w') = m w in (ok r, w')

module _ {W A B : Type 0} where
  abbrev pub continue : (A → M W B) → Result A × W → Result B × W
  continue f (ok a, w) = f a w
  continue f (err e, w) = (err e, w)

  infixl 5 ◌>>=◌ ◌>>◌
  abbrev pub ◌>>=◌ : M W A → (A → M W B) → M W B
  ◌>>=◌ m f w = continue f (m w)

  abbrev pub ◌>>◌ : M W A → M W B → M W B
  m >> n = m >>= λ _. n

module _ {W : Type 0} where
  abbrev pub modify : (W → W) → M W (Unit {0})
  modify f w = (ok tt, f w)

  -- `if (!b) throw e`
  abbrev pub require : Bool → Exn → M W (Unit {0})
  require true e w = (ok tt, w)
  require false e w = (err e, w)
