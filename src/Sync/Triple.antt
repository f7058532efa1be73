-- ===== src/Sync/Triple.antt =====
-- Hoare triples for the bodies that hold the connection of a push: what holds after a success. A body
-- that fails ends the push, which rolls the transaction back.
use zann.Base.{Bool, true, false, Option, none, some, Result, ok, err, String, if◌then◌else◌}
use zann.Sync.Store.{Conn, Statement}
use zann.Sync.Action.{
  Action, ApplyChangeError, ◌>>=◌, continue_with, give, must, attempt, require, or_db_error,
}

abbrev pub OnOk : {A : Type 0} → (A → Conn → Type 0) → Result ApplyChangeError A × Conn → Type 0
OnOk Q (ok a, c) = Q a c
OnOk Q (err e, c) = Unit

-- From a connection with `P`, a success of `m` gives a result and a connection with `Q`.
pub record Triple {A : Type 0} (P : Conn → Type 0) (m : Action A) (Q : A → Conn → Type 0)
    : Type 0 where
  pub holds : (c : Conn) → P c → OnOk Q (m c)

-- A property of the connection that a body keeps.
abbrev pub Keeps : {A : Type 0} → (Conn → Type 0) → Action A → Type 0
Keeps P m = Triple P m (λ _. P)

abbrev pub OnSome : {A : Type 0} → (A → Conn → Type 0) → Option A × Conn → Type 0
OnSome Q (some a, c) = Q a c
OnSome Q (none, c) = Unit

continue-OnOk :
    {A B : Type 0} (Q : A → Conn → Type 0) (R : B → Conn → Type 0) (k : A → Action B)
    (p : Result ApplyChangeError A × Conn)
    → ((a : A) → Triple (Q a) (k a) R)
    → OnOk Q p
    → OnOk R (continue_with k p)
continue-OnOk Q R k (ok a, c) u h = (u a).holds c h
continue-OnOk Q R k (err e, c) u h = tt

pub bind-Triple :
    {A B : Type 0} {P : Conn → Type 0} {Q : A → Conn → Type 0} {R : B → Conn → Type 0}
    {m : Action A} {k : A → Action B}
    → Triple P m Q
    → ((a : A) → Triple (Q a) (k a) R)
    → Triple P (m >>= k) R
unfolding ◌>>=◌
bind-Triple {Q} {R} {m} {k} t u = record {
  holds = λ c h. continue-OnOk Q R k (m c) u (t.holds c h);
}

-- The same for a body that keeps what is known.
pub bind-Keeps :
    {A B : Type 0} {P : Conn → Type 0} {R : B → Conn → Type 0} {m : Action A} {k : A → Action B}
    → Keeps P m
    → ((a : A) → Triple P (k a) R)
    → Triple P (m >>= k) R
bind-Keeps t u = bind-Triple t u

must-OnOk :
    {A : Type 0} (Q : A → Conn → Type 0) (p : Option A × Conn) → OnSome Q p → OnOk Q (or_db_error p)
must-OnOk Q (some a, c) h = h
must-OnOk Q (none, c) h = tt

pub must-Triple :
    {A : Type 0} {P : Conn → Type 0} {Q : A → Conn → Type 0} (s : Statement A)
    → ((c : Conn) → P c → OnSome Q (s c))
    → Triple P (must s) Q
unfolding must
must-Triple {Q} s t = record { holds = λ c h. must-OnOk Q (s c) (t c h) }

pub attempt-Triple :
    {A : Type 0} {P : Conn → Type 0} {Q : Option A → Conn → Type 0} (s : Statement A)
    → ((c : Conn) → P c → Q (s c).0 (s c).1)
    → Triple P (attempt s) Q
unfolding attempt
attempt-Triple s t = record { holds = t }

pub give-Triple :
    {A : Type 0} {P : Conn → Type 0} {Q : A → Conn → Type 0} (a : A)
    → ((c : Conn) → P c → Q a c)
    → Triple P (give a) Q
unfolding give
give-Triple a t = record { holds = t }

pub give-Keeps : {A : Type 0} {P : Conn → Type 0} (a : A) → Keeps P (give a)
give-Keeps a = give-Triple a (λ c h. h)

pub if-Triple :
    {A : Type 0} {P : Conn → Type 0} {Q : A → Conn → Type 0} (b : Bool) {m n : Action A}
    → Triple P m Q
    → Triple P n Q
    → Triple P (if b then m else n) Q
if-Triple true t u = t
if-Triple false t u = u

pub require-Keeps :
    {A : Type 0} {P : Conn → Type 0} (o : Option A) (e : String) → Keeps P (require o e)
unfolding require
require-Keeps none e = record { holds = λ c h. tt }
require-Keeps (some a) e = record { holds = λ c h. h }

pub OnOk-map :
    {A : Type 0} (Q R : A → Conn → Type 0) (p : Result ApplyChangeError A × Conn)
    → ((a : A) (c : Conn) → Q a c → R a c)
    → OnOk Q p
    → OnOk R p
OnOk-map Q R (ok a, c) f h = f a c h
OnOk-map Q R (err e, c) f h = tt
