-- ===== src/Jobs/Keeps.antt =====
-- The rules by which an operation in a session is shown to keep the tables consistent.
use tender_phase.Prelude.{Bool, true, false, ◌≡◌, refl, if◌then◌else◌}
use tender_phase.Model.{Database}
use tender_phase.Session.{Result, ok, err, ◌>>=◌}
use tender_phase.Jobs.Invariant.{IsConsistent, IsLater, IsLater-refl}

-- If the operation returns, the tables are consistent and no job has been lost.
abbrev pub Keeps : {A : Type 0} → Database → Result (A × Database) → Type 0
Keeps db (ok (a, db')) = IsConsistent db' × IsLater db db'
Keeps db (err e) = Unit

pub Keeps-bind :
    {A B : Type 0} (db : Database) (m : Result A) (f : A → Result (B × Database))
    → ((a : A) → m ≡ ok a → Keeps db (f a))
    → Keeps db (m >>= f)
Keeps-bind db (ok a) f h = h a refl
Keeps-bind db (err e) f h = tt

pub Keeps-same : (db : Database) → IsConsistent db → IsConsistent db × IsLater db db
Keeps-same db c = (c, IsLater-refl db)

pub Keeps-if :
    {A : Type 0} (db : Database) (b : Bool) (m n : Result (A × Database))
    → (b ≡ true → Keeps db m)
    → (b ≡ false → Keeps db n)
    → Keeps db (if b then m else n)
Keeps-if db true m n hm hn = hm refl
Keeps-if db false m n hm hn = hn refl

pub Keeps-if_pair :
    {A : Type 0} (db : Database) (b : Bool) (p q : A × Database)
    → (b ≡ true → Keeps db (ok p))
    → (b ≡ false → Keeps db (ok q))
    → Keeps db (ok (if b then p else q))
Keeps-if_pair db true p q hp hq = hp refl
Keeps-if_pair db false p q hp hq = hq refl
