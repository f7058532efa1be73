-- ===== src/Items/HistoryTests.antt =====
-- The versions of an item with three entries of history, of which a client asks for two.
use zann.Base.{◌≡◌, refl, some, pos, [], ◌∷◌, ok, text_eq}
use zann.Core.Structs.{ItemHistory}
use zann.Access.Policy.{from_rules}
use zann.Sync.Fixtures.{alice}
use zann.Items.Store.{ItemDb}
use zann.Items.Read.{list_item_versions}
use zann.Items.History.{IsListing, list_item_versions-IsListing}
use zann.Items.Tests.{item_site, no_item_faults, item_db, own_ref, last_entry}

abbrev second_entry : ItemHistory
second_entry = record last_entry { id = 72; version = 2 }

abbrev kept_entries : ItemDb
kept_entries = record item_db {
  tables = record item_db.tables {
    item_history =
        record last_entry { version = 1 }
        ∷ (last_entry ∷ (record last_entry { item_id = 21 } ∷ (second_entry ∷ [])));
  };
}

two_newest :
    list_item_versions item_site no_item_faults alice own_ref kept_entries 20 (some (pos 2))
    ≡ ok (last_entry ∷ (second_entry ∷ []))
unfolding list_item_versions text_eq zann.Access.Policy.evaluate from_rules
    zann.Access.Role.role_permits
two_newest = refl

list_item_versions-IsListing_example :
    IsListing kept_entries 20 (some (pos 2)) (last_entry ∷ (second_entry ∷ []))
list_item_versions-IsListing_example =
    list_item_versions-IsListing item_site no_item_faults alice own_ref kept_entries 20
      (some (pos 2)) (last_entry ∷ (second_entry ∷ [])) two_newest
