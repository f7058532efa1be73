-- ===== src/Rotation/Placed.antt =====
-- crates/zann-server/src/domains/vaults/http/v1/shared/handlers/rotation_commit.rs: where the candidate
-- is put into the payload.
use zann.Base.{
  ◌≡◌, ◌≢◌, refl, sym, ◌∙◌, ap, true, false, Bool-cases, inl, inr, some, Option-cases, List, [],
  ◌∷◌, ◌++◌, All, Text, arith,
}
use zann.Crypto.Vault.{FieldKind, text, password, url, otp, note, FieldValue}
use zann.Rotation.Start.{is_password}
use zann.Rotation.Commit.{set_password}

-- The first password field, in the order of the payload, has the candidate as its value; its name, its
-- kind and the other fields are as before.
pub record Placed (candidate : Text) (fields fields' : List (Text × FieldValue)) : Type 0 where
  pub earlier : List (Text × FieldValue)
  pub name : Text
  pub old : FieldValue
  pub new : FieldValue
  pub later : List (Text × FieldValue)
  pub before : fields ≡ earlier ++ (name, old) ∷ later
  pub after : fields' ≡ earlier ++ (name, new) ∷ later
  pub first : All (λ f. f.1.kind ≢ password) earlier
  pub kinds : (old.kind ≡ password) × (new.kind ≡ password)
  pub value : new.value ≡ candidate

kind_password : (k : FieldKind) → elim k [ password ↦ true | _ ↦ false ] ≡ true → k ≡ password
kind_password password e = refl
kind_password text e = cc
kind_password url e = cc
kind_password otp e = cc
kind_password note e = cc

kind_other : (k : FieldKind) → elim k [ password ↦ true | _ ↦ false ] ≡ false → k ≢ password
kind_other password e q = cc
kind_other text e q = cc
kind_other url e q = cc
kind_other otp e q = cc
kind_other note e q = cc

pub set_password-Placed :
    (candidate : Text) (fields fields' : List (Text × FieldValue))
    → set_password candidate fields ≡ some fields'
    → Placed candidate fields fields'
set_password-Placed candidate [] fields' e = absurd (ground (arith, e))
set_password-Placed candidate ((name, field) ∷ fields) fields' e =
    elim (Bool-cases (is_password field)) [
      | inl k ↦
          let kind = kind_password field.kind k in
          record {
            earlier = [];
            name = name;
            old = field;
            new = record field { value = candidate };
            later = fields;
            before = refl;
            after = sym (ground (arith, e, k));
            first = tt;
            kinds = (kind, kind);
            value = refl;
          }
      | inr k ↦ elim (Option-cases (set_password candidate fields)) [
        | inl n ↦ absurd (ground (arith, e, k, n))
        | inr (rest, n) ↦
            let p = set_password-Placed candidate fields rest n in
            let same : (name, field) ∷ rest ≡ fields' = ground (arith, e, k, n) in
            record {
              earlier = (name, field) ∷ p.earlier;
              name = p.name;
              old = p.old;
              new = p.new;
              later = p.later;
              before = ap (λ fs. (name, field) ∷ fs) p.before;
              after = sym same ∙ ap (λ fs. (name, field) ∷ fs) p.after;
              first = (kind_other field.kind k, p.first);
              kinds = p.kinds;
              value = p.value;
            }
      ]
    ]
