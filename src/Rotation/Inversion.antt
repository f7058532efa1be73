-- ===== src/Rotation/Inversion.antt =====
-- What a success of a rotation handler rests on, crates/zann-server/src/domains/vaults/http/v1/shared.
use zann.Base.{
  ℕ, ◌≡◌, refl, Bool, true, false, Bool-cases, Option, none, some, Option-cases, inl, inr, List, [],
  ◌∷◌, Text, Result, ok, err, ok_or, ensure, ◌>>=◌, find_first, arith, ◌==◌,
}
use zann.Core.Structs.{Identity, Vault, Item}
use zann.Access.Role.{items}
use zann.Access.Vault.{get_vault, access, is_shared_server_vault}
use zann.Rotation.Types.{HttpError}
use zann.Rotation.Store.{Site, ItemRow, RotationDb, RotationFaults, is_row, find_row}
use zann.Rotation.Authorise.{authorise, or_db_error, or_error}

pub bind-ok :
    {E A B : Type 0} (m : Result E A) (f : A → Result E B) (b : B)
    → m >>= f ≡ ok b
    → (a : A) × ((m ≡ ok a) × (f a ≡ ok b))
bind-ok (ok a) f b e = (a, (refl, e))
bind-ok (err x) f b e = cc

pub ok_or-ok : {E A : Type 0} (o : Option A) (x : E) (a : A) → ok_or o x ≡ ok a → o ≡ some a
ok_or-ok none x a e = cc
ok_or-ok (some a') x a e = cc

pub ensure-ok : {E : Type 0} (b : Bool) (x : E) (u : Unit {0}) → ensure b x ≡ ok u → b ≡ true
ensure-ok true x u e = refl
ensure-ok false x u e = cc

pub or_db_error-ok : {E A : Type 0} (r : Result E A) (a : A) → or_db_error r ≡ ok a → r ≡ ok a
or_db_error-ok (ok b) a e = cc
or_db_error-ok (err x) a e = cc

pub or_error-ok :
    {E A : Type 0} (r : Result E A) (x : HttpError) (a : A) → or_error r x ≡ ok a → r ≡ ok a
or_error-ok (ok b) x a e = cc
or_error-ok (err y) x a e = cc

pub find_row-id :
    (id : ℕ) (rows : List ItemRow) (row : ItemRow)
    → find_first (is_row id) rows ≡ some row
    → row.item.id ≡ id
find_row-id id [] row e = cc
find_row-id id (r ∷ rows) row e = elim (Bool-cases (r.item.id == id)) [
  | inl b ↦ ground (arith, b, e)
  | inr b ↦ ground (arith, find_row-id id rows row, b, e)
]

-- What the identity of an authorised request is, and what it may do.
pub record Authorised (site : Site) (identity : Identity) (item_id : ℕ) (action resource : Text)
    (db : RotationDb) (item : Item) (vault : Vault) : Type 0 where
  pub row : ItemRow
  pub found : find_row item_id db ≡ some row
  pub same : row.item ≡ item
  pub no_service_account : identity.service_account_id ≡ none
  pub in_vault : get_vault site.access_db item.vault_id ≡ ok (some vault)
  pub shared_server : is_shared_server_vault vault ≡ true
  pub permitted :
      access site.ext site.access_db site.policies identity vault.id action resource items ≡ ok true

-- A request that passes the checks of its handler is of no service account, for an item that is
-- there, in a vault that is shared, encrypted by the server and not deleted, and the policies or the
-- role of the identity permit the action.
pub authorise-Authorised :
    (site : Site) (faults : RotationFaults) (identity : Identity) (item_id : ℕ)
    (action resource : Text) (db : RotationDb) (item : Item) (vault : Vault)
    → authorise site faults identity item_id action resource db ≡ ok (item, vault)
    → Authorised site identity item_id action resource db item vault
unfolding authorise
authorise-Authorised site faults identity item_id action resource db item vault e =
    elim (Option-cases (find_row item_id db)) [
      | inl n ↦ absurd (ground (arith, e, n))
      | inr (row, r) ↦ record {
        row = row;
        found = r;
        same = ground (arith, e, r);
        no_service_account = ground (arith, e, r);
        in_vault = ground (arith, e, r);
        shared_server = ground (arith, e, r);
        permitted = ground (arith, e, r);
      }
    ]
