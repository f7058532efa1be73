-- ===== src/Sync/Total.antt =====
-- Bodies that hold the connection of a push and succeed: the counterpart of the triples, which say
-- nothing of a body that fails.
use zann.Base.{
  ℕ, suc, ◌≡◌, ◌≢◌, refl, ◌∙◌, ap, Bool, false, Bool-cases, inl, inr, List, [], ◌∷◌, Option, none,
  some, ok, find_first, any, keep, length, map, if◌then◌else◌, arith, ◌&&◌,
}
use zann.Core.Structs.{Item, ItemHistory, Change}
use zann.Sync.Store.{
  Tables, Conn, Statement, execute, select, insert_history, prune_item_history, prune_rows,
  update_item, insert_change, same_version, is_active, clashes,
}
use zann.Sync.Recorded.{with_id}
use zann.Sync.Action.{Action, ◌>>=◌, continue_with, give, must, attempt, or_db_error}

-- Run on `c`, the body succeeds, with a result and a connection for which `Q` holds.
pub record Succeeds {A : Type 0} (m : Action A) (c : Conn) (Q : A → Conn → Type 0) : Type 0 where
  pub result : A
  pub after : Conn
  pub runs : m c ≡ (ok result, after)
  pub holds : Q result after

pub bind-Succeeds :
    {A B : Type 0} {m : Action A} {k : A → Action B} {c : Conn} {Q : A → Conn → Type 0}
    {R : B → Conn → Type 0}
    → Succeeds m c Q
    → ((a : A) (c' : Conn) → Q a c' → Succeeds (k a) c' R)
    → Succeeds (m >>= k) c R
unfolding ◌>>=◌
bind-Succeeds {k} s next =
    let t = next s.result s.after s.holds in
    record {
      result = t.result;
      after = t.after;
      runs = ap (continue_with k) s.runs ∙ t.runs;
      holds = t.holds;
    }

pub give-Succeeds :
    {A : Type 0} (a : A) (c : Conn) (Q : A → Conn → Type 0) → Q a c → Succeeds (give a) c Q
unfolding give
give-Succeeds a c Q h = record { result = a; after = c; runs = refl; holds = h }

-- A statement that gives a result.
pub record Answers {A : Type 0} (s : Statement A) (c : Conn) (Q : A → Conn → Type 0) : Type 0 where
  pub answer : A
  pub left : Conn
  pub gives : s c ≡ (some answer, left)
  pub meets : Q answer left

pub must-Succeeds :
    {A : Type 0} {s : Statement A} {c : Conn} {Q : A → Conn → Type 0}
    → Answers s c Q
    → Succeeds (must s) c Q
unfolding must
must-Succeeds a = record {
  result = a.answer;
  after = a.left;
  runs = ap or_db_error a.gives;
  holds = a.meets;
}

pub attempt-Succeeds :
    {A : Type 0} {s : Statement A} {c : Conn} {I : Conn → Type 0}
    → Answers s c (λ _. I)
    → Succeeds (attempt s) c (λ _. I)
unfolding attempt
attempt-Succeeds {A} a = record {
  result = some a.answer;
  after = a.left;
  runs = ap (λ (p : Option A × Conn). (ok p.0, p.1)) a.gives;
  holds = a.meets;
}

-- A connection that does not fail, with this item under the id.
abbrev pub Has : ℕ → Item → Conn → Type 0
Has id item c = (c.budget ≡ none) × (find_first (with_id id) c.tables.items ≡ some item)

keep_found :
    (p : Item → Bool) (rows : List Item) (item : Item)
    → find_first p rows ≡ some item
    → length (keep p rows) ≢ 0
keep_found p [] item e z = cc
keep_found p (r ∷ rows) item e z = ground (arith, keep_found p rows item, e, z)

unblocked :
    (row : Item) (rows : List Item)
    → is_active row.sync_status ≡ false
    → any (with_id row.id) rows && clashes rows row ≡ false
unblocked row rows dead = ground (arith, dead)

module _ (id : ℕ) (item : Item) (c : Conn) (h : Has id item c) where
  pub select-Answers :
      {A : Type 0} (f : Tables → A)
      → Answers (select f) c (λ a c'. (a ≡ f c.tables) × Has id item c')
  unfolding select execute
  select-Answers f = record {
    answer = f c.tables;
    left = record c { budget = none };
    gives = rw h.0 refl;
    meets = (refl, (refl, h.1));
  }

  pub insert_history-Answers : (r : ItemHistory) → Answers (insert_history r) c (λ _. Has id item)
  unfolding insert_history execute
  insert_history-Answers r = elim (Bool-cases (any (same_version r) c.tables.item_history)) [
    | inl b ↦ record {
      answer = tt;
      left = record c { budget = none };
      gives = rw (h.0, b) refl;
      meets = (refl, h.1);
    }
    | inr b ↦ record {
      answer = tt;
      left = record c {
        tables = record c.tables { item_history = r ∷ c.tables.item_history };
        budget = none;
      };
      gives = rw (h.0, b) refl;
      meets = (refl, h.1);
    }
  ]

  pub prune-Answers : (i limit : ℕ) → Answers (prune_item_history i limit) c (λ _. Has id item)
  unfolding prune_item_history execute
  prune-Answers i limit = record {
    answer = tt;
    left = record c {
      tables = record c.tables { item_history = prune_rows i limit c.tables.item_history };
      budget = none;
    };
    gives = rw h.0 refl;
    meets = (refl, h.1);
  }

  -- A tombstone is not under the unique index.
  pub update_item-Answers :
      (row : Item)
      → row.id ≡ id
      → is_active row.sync_status ≡ false
      → Answers (update_item row) c (λ n c'. (n ≢ 0) × (c'.budget ≡ none))
  unfolding update_item execute
  update_item-Answers row same dead = record {
    answer = length (keep (with_id row.id) c.tables.items);
    left = record c {
      tables = record c.tables {
        items = map (λ r. if with_id row.id r then row else r) c.tables.items;
      };
      budget = none;
    };
    gives = rw (h.0, unblocked row c.tables.items dead) refl;
    meets = (keep_found _ c.tables.items item (rw same h.1), refl);
  }

  pub select_any-Answers : {A : Type 0} (f : Tables → A) → Answers (select f) c (λ _. Has id item)
  select_any-Answers f =
      let s = select-Answers f in
      record { answer = s.answer; left = s.left; gives = s.gives; meets = s.meets.1 }

pub insert_change-Answers :
    (row : ℕ → Change) (c : Conn)
    → c.budget ≡ none
    → Answers (insert_change row) c (λ seq c'. c'.budget ≡ none)
unfolding insert_change execute
insert_change-Answers row c h = record {
  answer = c.next_seq;
  left = record c {
    tables = record c.tables { changes = row c.next_seq ∷ c.tables.changes };
    next_seq = suc c.next_seq;
    budget = none;
  };
  gives = rw h refl;
  meets = refl;
}
